-- ===== src/Domain/Discord/Bitwise.antt =====
-- Each step of `resolve` (crates/domain/src/discord.rs), read at one bit of the mask.
use Prim.Native.Nat.{bit_and, bit_or}
use ldktela.Base.{
  ℕ, zero, suc, ◌<◌, ◌≡◌, refl, ap, ◌∙◌, Bool, true, false, ◌||◌, none, some, inl, inr,
  Option-cases, List, [], ◌∷◌, ◌==◌, any, find?, if◌then◌else◌, arith,
}
use ldktela.Base.Bits.{test, complement, test-bit_and, test-bit_or, test-complement}
use ldktela.Domain.Discord.{
  RoleRef, GuildRef, Overwrite, IsWord, add_role, add_roles, everyone_permissions, apply_masks,
  accumulate,
}

-- Whether a role grants the bit: the first role of that id decides.
unfoldable pub role_grants : ℕ → List RoleRef → ℕ → Bool
role_grants i roles role_id = elim (find? (λ r. r.id == role_id) roles) [
  | none ↦ false
  | some r ↦ test i r.permissions
]

pub test-zero : (i : ℕ) → test i 0 ≡ false
unfolding test
test-zero zero = refl
test-zero (suc i) = test-zero i

pub test-everyone_permissions :
    (i : ℕ) (guild : GuildRef)
    → test i (everyone_permissions guild) ≡ role_grants i guild.roles guild.id
unfolding everyone_permissions role_grants
test-everyone_permissions i guild = ground (arith, test-zero i)

test-add_role :
    (i : ℕ) (roles : List RoleRef) (base role_id : ℕ)
    → test i (add_role roles base role_id) ≡ (test i base || role_grants i roles role_id)
unfolding add_role role_grants
test-add_role i roles base role_id = elim (Option-cases (find? (λ r. r.id == role_id) roles)) [
  | inl e ↦ rw (e, add_role, role_grants) (ground arith)
  | inr (r, e) ↦ rw (e, add_role, role_grants) (test-bit_or i base r.permissions)
]

or_assoc : (a b c : Bool) → ((a || b) || c) ≡ (a || (b || c))
or_assoc a b c = ground arith

pub test-add_roles :
    (i : ℕ) (roles : List RoleRef) (base : ℕ) (ids : List ℕ)
    → test i (add_roles roles base ids) ≡ (test i base || any (role_grants i roles) ids)
unfolding add_roles
test-add_roles i roles base [] = ground arith
test-add_roles i roles base (x ∷ ids) =
    test-add_roles i roles (add_role roles base x) ids
    ∙ ap (λ b. b || any (role_grants i roles) ids) (test-add_role i roles base x)
    ∙ or_assoc (test i base) (role_grants i roles x) (any (role_grants i roles) ids)

-- An allow wins over a deny of the same bit.
unfoldable pub ruled : Bool → Bool → Bool → Bool
ruled allow deny base = if allow then true else if deny then false else base

pub test-apply_masks :
    (i allow deny base : ℕ)
    → i < 64
    → IsWord deny
    → test i (apply_masks allow deny base) ≡ ruled (test i allow) (test i deny) (test i base)
unfolding apply_masks ruled
test-apply_masks i allow deny base h w =
    rw
      (
        test-bit_or i (bit_and base (complement 64 deny)) allow,
        test-bit_and i base (complement 64 deny),
        test-complement 64 i deny h w,
      )
      (ground arith)

pub test-accumulate :
    (i : ℕ) (mask : Overwrite → ℕ) (acc : ℕ) (ows : List Overwrite)
    → test i (accumulate mask acc ows) ≡ (test i acc || any (λ o. test i (mask o)) ows)
unfolding accumulate
test-accumulate i mask acc [] = ground arith
test-accumulate i mask acc (o ∷ ows) =
    test-accumulate i mask (bit_or acc (mask o)) ows
    ∙ ap (λ b. b || any (λ o. test i (mask o)) ows) (test-bit_or i acc (mask o))
    ∙ or_assoc (test i acc) (test i (mask o)) (any (λ o. test i (mask o)) ows)
