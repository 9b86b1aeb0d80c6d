-- ===== src/Base/Map.antt =====
-- `HashMap` with a number for its key, as an association list. `retain`, `keys` and `values` are the
-- library's iterators; what the program does with them does not depend on their order, except where
-- a comment says so.
use ldktela.Base.{
  ℕ, ◌≡◌, refl, Bool, true, false, Option, none, some, List, [], ◌∷◌, ◌==◌, if◌then◌else◌, arith,
}

module _ {ℓ} {V : Type ℓ} where
  unfoldable pub get : ℕ → List (ℕ × V) → Option V
  get k [] = none
  get k ((j, v) ∷ m) = elim (j == k) [ true ↦ some v | false ↦ get k m ]

  unfoldable pub insert : ℕ → V → List (ℕ × V) → List (ℕ × V)
  insert k v [] = (k, v) ∷ []
  insert k v ((other, old) ∷ rest) =
      if other == k then (k, v) ∷ rest else (other, old) ∷ insert k v rest

  unfoldable pub remove : ℕ → List (ℕ × V) → List (ℕ × V)
  remove k [] = []
  remove k ((j, w) ∷ m) = let rest = remove k m in if j == k then rest else (j, w) ∷ rest

  unfoldable pub retain : (ℕ → V → Bool) → List (ℕ × V) → List (ℕ × V)
  retain p [] = []
  retain p ((j, w) ∷ m) = let rest = retain p m in if p j w then (j, w) ∷ rest else rest

  -- What `get_mut` does to an entry, if there is one.
  unfoldable pub modify : ℕ → (V → V) → List (ℕ × V) → List (ℕ × V)
  modify k f [] = []
  modify k f ((j, w) ∷ m) = if j == k then (j, f w) ∷ m else (j, w) ∷ modify k f m

  unfoldable pub keys : List (ℕ × V) → List ℕ
  keys [] = []
  keys ((j, w) ∷ m) = j ∷ keys m

  unfoldable pub values : List (ℕ × V) → List V
  values [] = []
  values ((j, w) ∷ m) = w ∷ values m

  -- Each key stands once.
  abbrev pub Distinct : List (ℕ × V) → Type ℓ
  Distinct [] = Unit
  Distinct ((j, w) ∷ m) = (get j m ≡ none) × Distinct m

  unfoldable pub kept : Bool → V → Option V
  kept true v = some v
  kept false v = none

  pub get-insert :
      (k j : ℕ) (v : V) (m : List (ℕ × V))
      → get j (insert k v m) ≡ (if k == j then some v else get j m)
  unfolding get insert
  get-insert k j v [] = ground arith
  get-insert k j v ((i, w) ∷ m) = ground (arith, get-insert k j v m)

  pub get-remove :
      (k j : ℕ) (m : List (ℕ × V)) → get j (remove k m) ≡ (if k == j then none else get j m)
  unfolding get remove
  get-remove k j [] = ground arith
  get-remove k j ((i, w) ∷ m) = ground (arith, get-remove k j m)

  pub get-retain :
      (p : ℕ → V → Bool) (j : ℕ) (m : List (ℕ × V))
      → Distinct m
      → get j (retain p m) ≡ elim (get j m) [ none ↦ none | some v ↦ kept (p j v) v ]
  unfolding get retain kept
  get-retain p j [] d = refl
  get-retain p j ((i, w) ∷ m) d = ground (arith, get-retain p j m d.1)

  pub get-modify :
      (k j : ℕ) (f : V → V) (m : List (ℕ × V))
      → get j (modify k f m)
        ≡ elim (get j m) [ none ↦ none | some v ↦ some (if k == j then f v else v) ]
  unfolding get modify
  get-modify k j f [] = refl
  get-modify k j f ((i, w) ∷ m) = ground (arith, get-modify k j f m)

  pub insert-Distinct : (k : ℕ) (v : V) (m : List (ℕ × V)) → Distinct m → Distinct (insert k v m)
  unfolding insert get
  insert-Distinct k v [] d = (refl, tt)
  insert-Distinct k v ((i, w) ∷ m) d = ground (arith, insert-Distinct k v m d.1, get-insert k i v m)

  pub remove-Distinct : (k : ℕ) (m : List (ℕ × V)) → Distinct m → Distinct (remove k m)
  unfolding remove get
  remove-Distinct k [] d = tt
  remove-Distinct k ((i, w) ∷ m) d = ground (arith, remove-Distinct k m d.1, get-remove k i m)

  pub retain-Distinct : (p : ℕ → V → Bool) (m : List (ℕ × V)) → Distinct m → Distinct (retain p m)
  unfolding retain get
  retain-Distinct p [] d = tt
  retain-Distinct p ((i, w) ∷ m) d = ground (arith, retain-Distinct p m d.1, get-retain p i m d.1)

  pub modify-Distinct :
      (k : ℕ) (f : V → V) (m : List (ℕ × V)) → Distinct m → Distinct (modify k f m)
  unfolding modify get
  modify-Distinct k f [] d = tt
  modify-Distinct k f ((i, w) ∷ m) d = ground (arith, modify-Distinct k f m d.1, get-modify k i f m)
