-- ===== src/Domain/Discord/Words.antt =====
-- `resolve` of crates/domain/src/discord.rs stays within a `u64`.
use Prim.Native.Nat.{bit_and, bit_or}
use ldktela.Base.{
  ℕ, ◌≡◌, Bool, some, inl, inr, Option-cases, List, [], ◌∷◌, ◌==◌, find?, keep_if, arith,
}
use ldktela.Base.Bits.{bit_or-lt, bit_and-le_left, complement}
use ldktela.Domain.Discord.{
  RoleRef, GuildRef, MemberRef, ChannelRef, Overwrite, IsWord, apply_masks, base_permissions,
  apply_channel, apply_overwrite, accumulate, is_everyone, is_member_role, is_member, resolve,
  everyone_permissions, add_role, add_roles,
}

-- Every mask of the guild's roles and of the channel's overwrites is a `u64`.
abbrev pub RolesFit : List RoleRef → Type 0
RolesFit [] = Unit {0}
RolesFit (r ∷ rs) = IsWord r.permissions × RolesFit rs

abbrev pub AllowsFit : List Overwrite → Type 0
AllowsFit [] = Unit {0}
AllowsFit (o ∷ os) = IsWord o.allow × AllowsFit os

find?-RolesFit :
    (p : RoleRef → Bool) (rs : List RoleRef) {r : RoleRef}
    → RolesFit rs
    → find? p rs ≡ some r
    → IsWord r.permissions
find?-RolesFit p [] h e = cc
find?-RolesFit p (x ∷ rs) {r} h e = ground (arith, find?-RolesFit p rs {r = r} h.1)

find?-AllowsFit :
    (p : Overwrite → Bool) (os : List Overwrite) {o : Overwrite}
    → AllowsFit os
    → find? p os ≡ some o
    → IsWord o.allow
find?-AllowsFit p [] h e = cc
find?-AllowsFit p (x ∷ os) {o} h e = ground (arith, find?-AllowsFit p os {o = o} h.1)

keep_if-AllowsFit :
    (p : Overwrite → Bool) (os : List Overwrite) → AllowsFit os → AllowsFit (keep_if p os)
keep_if-AllowsFit p [] h = tt
keep_if-AllowsFit p (x ∷ os) h = ground (arith, keep_if-AllowsFit p os h.1)

everyone_permissions-IsWord :
    (guild : GuildRef) → RolesFit guild.roles → IsWord (everyone_permissions guild)
unfolding everyone_permissions
everyone_permissions-IsWord guild h =
    elim (Option-cases (find? (λ r. r.id == guild.id) guild.roles)) [
      | inl e ↦ rw (e, everyone_permissions) (omega arith)
      | inr (r, e) ↦
          rw (e, everyone_permissions) (find?-RolesFit (λ r. r.id == guild.id) guild.roles h e)
    ]

add_role-IsWord :
    (roles : List RoleRef) (base x : ℕ)
    → RolesFit roles
    → IsWord base
    → IsWord (add_role roles base x)
unfolding add_role
add_role-IsWord roles base x h b = elim (Option-cases (find? (λ r. r.id == x) roles)) [
  | inl e ↦ rw (e, add_role) b
  | inr (r, e) ↦
      rw (e, add_role)
        (bit_or-lt 64 base r.permissions b (find?-RolesFit (λ r. r.id == x) roles h e))
]

add_roles-IsWord :
    (roles : List RoleRef) (base : ℕ) (ids : List ℕ)
    → RolesFit roles
    → IsWord base
    → IsWord (add_roles roles base ids)
unfolding add_roles
add_roles-IsWord roles base [] h b = b
add_roles-IsWord roles base (x ∷ ids) h b =
    add_roles-IsWord roles (add_role roles base x) ids h (add_role-IsWord roles base x h b)

apply_masks-IsWord :
    (allow deny base : ℕ) → IsWord allow → IsWord base → IsWord (apply_masks allow deny base)
unfolding apply_masks
apply_masks-IsWord allow deny base a b =
    bit_or-lt 64 (bit_and base (complement 64 deny)) allow
      (omega (arith, bit_and-le_left base (complement 64 deny))) a

apply_overwrite-IsWord :
    (p : Overwrite → Bool) (os : List Overwrite) (base : ℕ)
    → AllowsFit os
    → IsWord base
    → IsWord (apply_overwrite (find? p os) base)
unfolding apply_overwrite
apply_overwrite-IsWord p os base h b = elim (Option-cases (find? p os)) [
  | inl e ↦ rw (e, apply_overwrite) b
  | inr (o, e) ↦
      rw (e, apply_overwrite) (apply_masks-IsWord o.allow o.deny base (find?-AllowsFit p os h e) b)
]

accumulate-IsWord :
    (acc : ℕ) (os : List Overwrite)
    → IsWord acc
    → AllowsFit os
    → IsWord (accumulate (λ o. o.allow) acc os)
unfolding accumulate
accumulate-IsWord acc [] h fits = h
accumulate-IsWord acc (o ∷ os) h fits =
    accumulate-IsWord (bit_or acc o.allow) os (bit_or-lt 64 acc o.allow h fits.0) fits.1

-- Where the masks of the guild and of the channel are `u64`s, so is the answer.
pub resolve-IsWord :
    (guild : GuildRef) (m : MemberRef) (channel : ChannelRef)
    → RolesFit guild.roles
    → AllowsFit channel.overwrites
    → IsWord (resolve guild m channel)
unfolding resolve apply_channel base_permissions
resolve-IsWord guild m channel r a = ground (
  arith,
  apply_overwrite-IsWord (is_member m) channel.overwrites
      (apply_masks
        (accumulate (λ o. o.allow) 0 (keep_if (is_member_role guild m) channel.overwrites))
        (accumulate (λ o. o.deny) 0 (keep_if (is_member_role guild m) channel.overwrites))
        (apply_overwrite (find? (is_everyone guild) channel.overwrites) (base_permissions guild m)))
      a
      (apply_masks-IsWord _ _ _
        (accumulate-IsWord 0 _ (omega arith)
          (keep_if-AllowsFit (is_member_role guild m) channel.overwrites a))
        (apply_overwrite-IsWord (is_everyone guild) channel.overwrites _ a
          (add_roles-IsWord guild.roles _ m.role_ids r (everyone_permissions-IsWord guild r)))),
)
