-- ===== src/Base/Decimal.antt =====
-- Decimal numbers as lists of characters: what Rust's formatting prints and `str::parse` reads.
use ldktela.Base.{
  ℕ, zero, suc, ◌+◌, ◌-◌, ◌*◌, ◌/◌, ◌%◌, ◌^◌, ◌<◌, ◌≡◌, refl, ◌∙◌, ◌&&◌, Option, none, some, List,
  [], ◌∷◌, ◌++◌, ltb, leb, if◌then◌else◌, arith, Bool-cases, inl, inr,
}
use mathlib.Core.List.{append_assoc, append-nil}
use native.Mathlib.Nat.{pow-suc}

-- The digits of `cs` after `value`, as long as the number stays below `limit`.
unfoldable pub digits : ℕ → ℕ → List ℕ → Option ℕ
digits limit value [] = some value
digits limit value (c ∷ cs) =
    let next = value * 10 + (c - 0x30) in
    let rest = digits limit next cs in
    if leb 0x30 c && leb c 0x39 && ltb next limit then rest else none

-- At least one digit, and a number below `limit`.
unfoldable pub parse_nat : ℕ → List ℕ → Option ℕ
parse_nat limit [] = none
parse_nat limit (c ∷ cs) = digits limit 0 (c ∷ cs)

-- Numbers of at most `fuel + 1` digits.
unfoldable pub print_nat : ℕ → ℕ → List ℕ
print_nat zero n = (0x30 + n % 10) ∷ []
print_nat (suc fuel) n =
    let front = print_nat fuel (n / 10) in
    if ltb n 10 then (0x30 + n) ∷ [] else front ++ (0x30 + n % 10) ∷ []

one_digit :
    (limit n value d : ℕ) (rest : List ℕ)
    → d < 10
    → value * 10 + d ≡ n
    → n < limit
    → digits limit value ((0x30 + d) ∷ rest) ≡ digits limit n rest
unfolding digits
one_digit limit n value d rest hd e h = ground arith

digits-print_nat :
    (fuel limit n : ℕ) (rest : List ℕ)
    → n < 10 ^ suc fuel
    → n < limit
    → digits limit 0 (print_nat fuel n ++ rest) ≡ digits limit n rest
unfolding print_nat
digits-print_nat zero limit n rest h lt =
    one_digit limit n 0 (n % 10) rest (omega arith) (omega arith) lt
digits-print_nat (suc fuel) limit n rest h lt = elim (Bool-cases (ltb n 10)) [
  | inl e ↦ rw (print_nat, e) (one_digit limit n 0 n rest (ground arith) (omega arith) lt)
  | inr e ↦
      rw (print_nat, e, append_assoc)
        (digits-print_nat fuel limit (n / 10) ((0x30 + n % 10) ∷ rest)
            (omega (arith, pow-suc 10 (suc fuel), h)) (omega (arith, lt))
          ∙ one_digit limit n (n / 10) (n % 10) rest (omega arith) (omega arith) lt)
]

-- What is printed starts with a digit.
pub print_nat_head :
    (fuel n : ℕ) → (d : ℕ) × (rest : List ℕ) × (d < 10) × (print_nat fuel n ≡ (0x30 + d) ∷ rest)
unfolding print_nat
print_nat_head zero n = (n % 10, [], omega arith, refl)
print_nat_head (suc fuel) n = elim (Bool-cases (ltb n 10)) [
  | inl e ↦ (n, [], ground arith, rw (print_nat, e) refl)
  | inr e ↦
      let (d, rest, small, form) = print_nat_head fuel (n / 10) in
      (d, rest ++ (0x30 + n % 10) ∷ [], small, rw (print_nat, e, form) refl)
]

pub parse_nat-print_nat :
    (fuel limit n : ℕ) → n < 10 ^ suc fuel → n < limit → parse_nat limit (print_nat fuel n) ≡ some n
unfolding parse_nat digits
parse_nat-print_nat fuel limit n h lt =
    let (d, rest, small, form) = print_nat_head fuel n in
    let read = rw (append-nil, form) at (digits-print_nat fuel limit n [] h lt) in rw form read
