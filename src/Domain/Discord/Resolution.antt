-- ===== src/Domain/Discord/Resolution.antt =====
-- What `resolve` decides (crates/domain/src/discord.rs), one permission bit at a time, against the
-- order of precedence that the module's documentation gives.
use Prim.Native.Nat.{bit_or}
use ldktela.Base.{
  ℕ, ◌<◌, ◌≡◌, refl, ap, ◌∙◌, Bool, false, ◌&&◌, ◌||◌, Option, none, some, inl, inr, Option-cases,
  List, [], ◌∷◌, ◌==◌, any, find?, keep_if, arith,
}
use ldktela.Base.Bits.{test, contains_bit, all_ones, bit_or-lt}
use ldktela.Domain.Discord.{
  GuildRef, MemberRef, ChannelRef, Overwrite, IsWord, base_permissions, apply_channel,
  apply_overwrite, accumulate, is_everyone, is_member_role, is_member, resolve,
  everyone_permissions,
}
use ldktela.Domain.Discord.Bitwise.{
  role_grants, ruled, test-everyone_permissions, test-add_roles, test-apply_masks, test-accumulate,
  test-zero,
}

-- Every `deny` of the channel is a `u64`.
abbrev pub DeniesFit : List Overwrite → Type 0
DeniesFit [] = Unit {0}
DeniesFit (o ∷ os) = IsWord o.deny × DeniesFit os

-- Whether the bit is granted before the channel is looked at: by @everyone or by a role held.
unfoldable pub granted : ℕ → GuildRef → MemberRef → Bool
granted i guild m = role_grants i guild.roles guild.id || any (role_grants i guild.roles) m.role_ids

unfoldable pub allows : ℕ → Option Overwrite → Bool
allows i none = false
allows i (some o) = test i o.allow

unfoldable pub denies : ℕ → Option Overwrite → Bool
denies i none = false
denies i (some o) = test i o.deny

-- The precedence: the member's own overwrite, then those of the roles held, where one allow beats
-- every deny, then that of @everyone, then what the roles grant.
unfoldable pub precedence : ℕ → GuildRef → MemberRef → List Overwrite → Bool
precedence i guild m os =
    let own : Option Overwrite = find? (is_member m) os in
    let everyone : Option Overwrite = find? (is_everyone guild) os in
    ruled (allows i own) (denies i own) (
      ruled (any (λ o. is_member_role guild m o && test i o.allow) os)
        (any (λ o. is_member_role guild m o && test i o.deny) os)
        (ruled (allows i everyone) (denies i everyone) (granted i guild m)))

test-base_permissions :
    (i : ℕ) (guild : GuildRef) (m : MemberRef)
    → test i (base_permissions guild m) ≡ granted i guild m
unfolding base_permissions granted
test-base_permissions i guild m =
    test-add_roles i guild.roles (everyone_permissions guild) m.role_ids
    ∙ ap (λ b. b || any (role_grants i guild.roles) m.role_ids) (test-everyone_permissions i guild)

find?-IsWord :
    (p : Overwrite → Bool) (os : List Overwrite) {o : Overwrite}
    → DeniesFit os
    → find? p os ≡ some o
    → IsWord o.deny
find?-IsWord p [] h e = cc
find?-IsWord p (x ∷ os) {o} h e = ground (arith, find?-IsWord p os {o = o} h.1)

keep_if-DeniesFit :
    (p : Overwrite → Bool) (os : List Overwrite) → DeniesFit os → DeniesFit (keep_if p os)
keep_if-DeniesFit p [] h = tt
keep_if-DeniesFit p (x ∷ os) h = ground (arith, keep_if-DeniesFit p os h.1)

accumulate-IsWord :
    (acc : ℕ) (os : List Overwrite)
    → IsWord acc
    → DeniesFit os
    → IsWord (accumulate (λ o. o.deny) acc os)
unfolding accumulate
accumulate-IsWord acc [] h fits = h
accumulate-IsWord acc (o ∷ os) h fits =
    accumulate-IsWord (bit_or acc o.deny) os (bit_or-lt 64 acc o.deny h fits.0) fits.1

test-apply_overwrite :
    (i : ℕ) (p : Overwrite → Bool) (os : List Overwrite) (base : ℕ)
    → i < 64
    → DeniesFit os
    → test i (apply_overwrite (find? p os) base)
      ≡ ruled (allows i (find? p os)) (denies i (find? p os)) (test i base)
unfolding apply_overwrite allows denies
test-apply_overwrite i p os base h fits = elim (Option-cases (find? p os)) [
  | inl e ↦ rw (e, apply_overwrite, allows, denies) (unfold ruled in refl)
  | inr (o, e) ↦
      rw (e, apply_overwrite, allows, denies)
        (test-apply_masks i o.allow o.deny base h (find?-IsWord p os fits e))
]

any-keep_if :
    (p q : Overwrite → Bool) (os : List Overwrite) → any q (keep_if p os) ≡ any (λ o. p o && q o) os
any-keep_if p q [] = refl
any-keep_if p q (o ∷ os) = ground (arith, any-keep_if p q os)

test-of_roles :
    (i : ℕ) (mask : Overwrite → ℕ) (p : Overwrite → Bool) (os : List Overwrite)
    → test i (accumulate mask 0 (keep_if p os)) ≡ any (λ o. p o && test i (mask o)) os
test-of_roles i mask p os =
    test-accumulate i mask 0 (keep_if p os)
    ∙ ap (λ b. b || any (λ o. test i (mask o)) (keep_if p os)) (test-zero i)
    ∙ any-keep_if p (λ o. test i (mask o)) os

test-apply_channel :
    (i : ℕ) (guild : GuildRef) (m : MemberRef) (os : List Overwrite)
    → i < 64
    → DeniesFit os
    → test i (apply_channel guild m os (base_permissions guild m)) ≡ precedence i guild m os
unfolding apply_channel precedence
test-apply_channel i guild m os h fits = rw (
  test-apply_overwrite i (is_member m) os _ h fits,
  test-apply_masks i _ _ _ h
      (accumulate-IsWord 0 _ (omega arith) (keep_if-DeniesFit (is_member_role guild m) os fits)),
  test-of_roles i (λ o. o.allow) (is_member_role guild m) os,
  test-of_roles i (λ o. o.deny) (is_member_role guild m) os,
  test-apply_overwrite i (is_everyone guild) os (base_permissions guild m) h fits,
  test-base_permissions i guild m,
)

-- Every bit of the result: the owner and a holder of ADMINISTRATOR have it whatever the channel
-- says; for anyone else the overwrites of the channel decide it by precedence. The masks that
-- overwrites deny are `u64`s.
pub test-resolve :
    (i : ℕ) (guild : GuildRef) (m : MemberRef) (channel : ChannelRef)
    → i < 64
    → DeniesFit channel.overwrites
    → test i (resolve guild m channel) ≡ (
        m.user_id == guild.owner_id || granted 3 guild m || precedence i guild m channel.overwrites)
unfolding resolve
test-resolve i guild m channel h fits =
    rw (contains_bit 3 (base_permissions guild m), test-base_permissions 3 guild m)
      (ground (arith, all_ones 64 i h, test-apply_channel i guild m channel.overwrites h fits))
