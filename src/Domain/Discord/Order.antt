-- ===== src/Domain/Discord/Order.antt =====
-- The order in which Discord lists the overwrites of a channel does not matter to `resolve`
-- (crates/domain/src/discord.rs): role overwrites are accumulated before they are applied.
use ldktela.Base.{
  ℕ, ◌≡◌, ◌≢◌, sym, ap, ◌∙◌, Bool, false, ◌&&◌, ◌||◌, List, [], ◌∷◌, ◌++◌, ◌==◌, any, find?, arith,
}
use ldktela.Base.Bits.{test, word_ext}
use ldktela.Domain.Discord.{
  GuildRef, MemberRef, ChannelRef, Overwrite, is_everyone, is_member_role, is_member, resolve,
}
use ldktela.Domain.Discord.Resolution.{DeniesFit, precedence, test-resolve, granted}
use ldktela.Domain.Discord.Words.{RolesFit, AllowsFit, resolve-IsWord}

module _ (xs ys : List Overwrite) (a b : Overwrite) where
  abbrev pub listed : List Overwrite
  listed = xs ++ (a ∷ b ∷ ys)

  abbrev pub swapped : List Overwrite
  swapped = xs ++ (b ∷ a ∷ ys)

any-swap :
    (p : Overwrite → Bool) (xs ys : List Overwrite) (a b : Overwrite)
    → any p (listed xs ys a b) ≡ any p (swapped xs ys a b)
any-swap p [] ys a b = ground arith
any-swap p (x ∷ xs) ys a b = ap (λ t. p x || t) (any-swap p xs ys a b)

find?-swap :
    (p : Overwrite → Bool) (xs ys : List Overwrite) (a b : Overwrite)
    → (p a && p b) ≡ false
    → find? p (listed xs ys a b) ≡ find? p (swapped xs ys a b)
find?-swap p [] ys a b h = ground arith
find?-swap p (x ∷ xs) ys a b h = ground (arith, find?-swap p xs ys a b h)

DeniesFit-swap :
    (xs ys : List Overwrite) (a b : Overwrite)
    → DeniesFit (listed xs ys a b)
    → DeniesFit (swapped xs ys a b)
DeniesFit-swap [] ys a b h = (h.1.0, (h.0, h.1.1))
DeniesFit-swap (x ∷ xs) ys a b h = (h.0, DeniesFit-swap xs ys a b h.1)

AllowsFit-swap :
    (xs ys : List Overwrite) (a b : Overwrite)
    → AllowsFit (listed xs ys a b)
    → AllowsFit (swapped xs ys a b)
AllowsFit-swap [] ys a b h = (h.1.0, (h.0, h.1.1))
AllowsFit-swap (x ∷ xs) ys a b h = (h.0, AllowsFit-swap xs ys a b h.1)

-- At most one overwrite of a channel is about a given role or a given member.
abbrev pub Differ : Overwrite → Overwrite → Type 0
Differ a b = a.kind ≡ b.kind → a.target_id ≢ b.target_id

is_member-once :
    (m : MemberRef) (a b : Overwrite) → Differ a b → (is_member m a && is_member m b) ≡ false
unfolding is_member
is_member-once m a b d = ground arith

is_everyone-once :
    (guild : GuildRef) (a b : Overwrite)
    → Differ a b
    → (is_everyone guild a && is_everyone guild b) ≡ false
unfolding is_everyone
is_everyone-once guild a b d = ground arith

precedence-swap :
    (i : ℕ) (guild : GuildRef) (m : MemberRef) (xs ys : List Overwrite) (a b : Overwrite)
    → Differ a b
    → precedence i guild m (listed xs ys a b) ≡ precedence i guild m (swapped xs ys a b)
unfolding precedence
precedence-swap i guild m xs ys a b d = rw (
  find?-swap (is_member m) xs ys a b (is_member-once m a b d),
  find?-swap (is_everyone guild) xs ys a b (is_everyone-once guild a b d),
  any-swap (λ o. is_member_role guild m o && test i o.allow) xs ys a b,
  any-swap (λ o. is_member_role guild m o && test i o.deny) xs ys a b,
)

abbrev pub channel_of : ℕ → List Overwrite → ChannelRef
channel_of id os = record { id = id; overwrites = os }

-- Two neighbouring overwrites about different roles or members may be listed the other way round:
-- the member's permissions are the same number. All masks are `u64`s.
pub resolve-swap :
    (guild : GuildRef) (m : MemberRef) (id : ℕ) (xs ys : List Overwrite) (a b : Overwrite)
    → RolesFit guild.roles
    → AllowsFit (listed xs ys a b)
    → DeniesFit (listed xs ys a b)
    → Differ a b
    → resolve guild m (channel_of id (listed xs ys a b))
      ≡ resolve guild m (channel_of id (swapped xs ys a b))
resolve-swap guild m id xs ys a b r al de d =
    word_ext 64 _ _ (resolve-IsWord guild m (channel_of id (listed xs ys a b)) r al)
      (resolve-IsWord guild m (channel_of id (swapped xs ys a b)) r (AllowsFit-swap xs ys a b al))
      λ i h.
        test-resolve i guild m (channel_of id (listed xs ys a b)) h de
        ∙ ap (λ p. m.user_id == guild.owner_id || granted 3 guild m || p)
            (precedence-swap i guild m xs ys a b d)
        ∙ sym (
            test-resolve i guild m (channel_of id (swapped xs ys a b)) h
              (DeniesFit-swap xs ys a b de))
