-- ===== src/Base/Set.antt =====
-- `HashSet` of numbers, as a list without repetitions.
use ldktela.Base.{
  ℕ, ◌+◌, ◌≤◌, ◌≡◌, refl, Bool, true, false, List, [], ◌∷◌, ◌==◌, length, if◌then◌else◌, arith,
}

unfoldable pub contains : ℕ → List ℕ → Bool
contains x [] = false
contains x (y ∷ ys) = elim (y == x) [ true ↦ true | false ↦ contains x ys ]

unfoldable pub insert : ℕ → List ℕ → List ℕ
insert x ys = if contains x ys then ys else x ∷ ys

unfoldable pub remove : ℕ → List ℕ → List ℕ
remove x [] = []
remove x (y ∷ ys) = let rest = remove x ys in if y == x then rest else y ∷ rest

unfoldable pub is_empty : List ℕ → Bool
is_empty [] = true
is_empty (x ∷ xs) = false

pub contains-insert :
    (x y : ℕ) (ys : List ℕ) → contains y (insert x ys) ≡ (if x == y then true else contains y ys)
unfolding insert contains
contains-insert x y ys = ground arith

pub contains-remove :
    (x y : ℕ) (ys : List ℕ) → contains y (remove x ys) ≡ (if x == y then false else contains y ys)
unfolding remove contains
contains-remove x y [] = ground arith
contains-remove x y (z ∷ ys) = ground (arith, contains-remove x y ys)

pub length-insert :
    (x : ℕ) (ys : List ℕ)
    → length (insert x ys) ≡ (if contains x ys then length ys else length ys + 1)
unfolding insert
length-insert x ys = ground arith

pub length-remove-le : (x : ℕ) (ys : List ℕ) → length (remove x ys) ≤ length ys
unfolding remove
length-remove-le x [] = omega arith
length-remove-le x (y ∷ ys) = ground (arith, length-remove-le x ys)

pub contains-is_empty : (x : ℕ) (ys : List ℕ) → is_empty ys ≡ true → contains x ys ≡ false
unfolding contains is_empty
contains-is_empty x [] h = refl
contains-is_empty x (y ∷ ys) h = cc

pub length-is_empty : (ys : List ℕ) → is_empty ys ≡ true → length ys ≡ 0
unfolding is_empty
length-is_empty [] h = refl
length-is_empty (y ∷ ys) h = cc
