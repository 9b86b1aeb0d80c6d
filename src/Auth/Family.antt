-- ===== src/Auth/Family.antt =====
-- The live tokens of a family, and what each query does to their number
-- (crates/db/src/repo/refresh_tokens.rs).
use mathlib.Core.Path.{subst}
use ldktela.Base.{
  sym, inl, inr, Bool-cases, ℕ, ◌+◌, ◌≤◌, ◌≡◌, ◌≢◌, refl, Bool, false, ◌&&◌, none, some, List, [],
  ◌∷◌, ◌==◌, keep_if, if◌then◌else◌, arith,
}
use ldktela.Auth.{
  RefreshTokenRow, is_none, clashes, insert, find_by_hash, consumes, consume_rows, affected,
  revoke_where, revoke_family,
}

-- Neither consumed nor revoked.
unfoldable pub is_live : ℕ → RefreshTokenRow → Bool
is_live f r = r.family_id == f && is_none r.consumed_at && is_none r.revoked_at

unfoldable pub live : ℕ → List RefreshTokenRow → ℕ
live f [] = 0
live f (r ∷ rows) = let rest : ℕ = live f rows in if is_live f r then 1 + rest else rest

-- Every row with that id is of that family.
abbrev pub SameFamily : ℕ → ℕ → List RefreshTokenRow → Type 0
SameFamily id fam [] = Unit
SameFamily id fam (r ∷ rows) = (r.id ≡ id → r.family_id ≡ fam) × SameFamily id fam rows

-- Of any two rows with one id.
abbrev pub Keyed : List RefreshTokenRow → Type 0
Keyed [] = Unit
Keyed (r ∷ rows) = SameFamily r.id r.family_id rows × Keyed rows

pub live-consume :
    (f id fam now : ℕ) (rows : List RefreshTokenRow)
    → SameFamily id fam rows
    → live f (consume_rows rows id now) + (if fam == f then affected (consumes id) rows else 0)
      ≡ live f rows
unfolding live is_live consume_rows affected consumes
live-consume f id fam now [] h = ground arith
live-consume f id fam now (r ∷ rows) h = ground (arith, live-consume f id fam now rows h.1)

pub live-revoke_where-le :
    (f now : ℕ) (p : RefreshTokenRow → Bool) (rows : List RefreshTokenRow)
    → live f (revoke_where p rows now) ≤ live f rows
unfolding live is_live revoke_where
live-revoke_where-le f now p [] = omega arith
live-revoke_where-le f now p (r ∷ rows) = ground (arith, live-revoke_where-le f now p rows)

pub live-revoke_family :
    (f k now : ℕ) (rows : List RefreshTokenRow)
    → live f (revoke_family rows k now) ≡ (if k == f then 0 else live f rows)
unfolding live is_live revoke_where revoke_family
live-revoke_family f k now [] = ground arith
live-revoke_family f k now (r ∷ rows) = ground (arith, live-revoke_family f k now rows)

pub live-keep_if-le :
    (f : ℕ) (p : RefreshTokenRow → Bool) (rows : List RefreshTokenRow)
    → live f (keep_if p rows) ≤ live f rows
unfolding live is_live
live-keep_if-le f p [] = omega arith
live-keep_if-le f p (r ∷ rows) = ground (arith, live-keep_if-le f p rows)

-- No query changes the id or the family of a row.
pub consume-SameFamily :
    (i fam id now : ℕ) (rows : List RefreshTokenRow)
    → SameFamily i fam rows
    → SameFamily i fam (consume_rows rows id now)
unfolding consume_rows
consume-SameFamily i fam id now [] h = tt
consume-SameFamily i fam id now (r ∷ rows) h =
    ground (arith, consume-SameFamily i fam id now rows h.1)

pub revoke-SameFamily :
    (i fam now : ℕ) (p : RefreshTokenRow → Bool) (rows : List RefreshTokenRow)
    → SameFamily i fam rows
    → SameFamily i fam (revoke_where p rows now)
unfolding revoke_where
revoke-SameFamily i fam now p [] h = tt
revoke-SameFamily i fam now p (r ∷ rows) h = ground (arith, revoke-SameFamily i fam now p rows h.1)

pub keep_if-SameFamily :
    (i fam : ℕ) (p : RefreshTokenRow → Bool) (rows : List RefreshTokenRow)
    → SameFamily i fam rows
    → SameFamily i fam (keep_if p rows)
keep_if-SameFamily i fam p [] h = tt
keep_if-SameFamily i fam p (r ∷ rows) h = ground (arith, keep_if-SameFamily i fam p rows h.1)

pub consume-Keyed :
    (id now : ℕ) (rows : List RefreshTokenRow) → Keyed rows → Keyed (consume_rows rows id now)
unfolding consume_rows
consume-Keyed id now [] h = tt
consume-Keyed id now (r ∷ rows) h =
    ground
      (arith, consume-Keyed id now rows h.1, consume-SameFamily r.id r.family_id id now rows h.0)

pub revoke-Keyed :
    (now : ℕ) (p : RefreshTokenRow → Bool) (rows : List RefreshTokenRow)
    → Keyed rows
    → Keyed (revoke_where p rows now)
unfolding revoke_where
revoke-Keyed now p [] h = tt
revoke-Keyed now p (r ∷ rows) h =
    ground (arith, revoke-Keyed now p rows h.1, revoke-SameFamily r.id r.family_id now p rows h.0)

pub keep_if-Keyed :
    (p : RefreshTokenRow → Bool) (rows : List RefreshTokenRow) → Keyed rows → Keyed (keep_if p rows)
keep_if-Keyed p [] h = tt
keep_if-Keyed p (r ∷ rows) h =
    ground (arith, keep_if-Keyed p rows h.1, keep_if-SameFamily r.id r.family_id p rows h.0)

-- A row that is found agrees with the table.
find-SameFamily :
    (i fam hash : ℕ) (rows : List RefreshTokenRow) (row : RefreshTokenRow)
    → SameFamily i fam rows
    → find_by_hash rows hash ≡ some row
    → row.id ≡ i
    → row.family_id ≡ fam
unfolding find_by_hash
find-SameFamily i fam hash [] row h e d = cc
find-SameFamily i fam hash (r ∷ rows) row h e d =
    ground (arith, find-SameFamily i fam hash rows row h.1)

pub find-Keyed :
    (hash : ℕ) (rows : List RefreshTokenRow) (row : RefreshTokenRow)
    → Keyed rows
    → find_by_hash rows hash ≡ some row
    → SameFamily row.id row.family_id rows
unfolding find_by_hash
find-Keyed hash [] row h e = tt
find-Keyed hash (r ∷ rows) row h e = elim (Bool-cases (r.token_hash == hash)) [
  | inl here ↦
      let eq : row ≡ r = ground arith in
      subst (λ t. SameFamily t.id t.family_id (r ∷ rows)) (sym eq) (λ _. refl, h.0)
  | inr there ↦
      let found : find_by_hash rows hash ≡ some row = ground arith in
      (
        λ d. sym (find-SameFamily r.id r.family_id hash rows row h.0 found (sym d)),
        find-Keyed hash rows row h.1 found,
      )
]

-- A token inserted under an id that no row has.
pub insert-live :
    (f id family_id user_id token_hash expires_at : ℕ) (rows rows' : List RefreshTokenRow)
    → insert rows id family_id user_id token_hash expires_at ≡ some rows'
    → live f rows' ≡ (if family_id == f then 1 + live f rows else live f rows)
unfolding insert live is_live
insert-live f id family_id user_id token_hash expires_at rows rows' e = ground arith

clashes-SameFamily :
    (id fam token_hash : ℕ) (rows : List RefreshTokenRow)
    → clashes id token_hash rows ≡ false
    → SameFamily id fam rows
unfolding clashes
clashes-SameFamily id fam token_hash [] e = tt
clashes-SameFamily id fam token_hash (r ∷ rows) e =
    ground (arith, clashes-SameFamily id fam token_hash rows)

pub fresh_row : ℕ → ℕ → ℕ → ℕ → ℕ → RefreshTokenRow
fresh_row id family_id user_id token_hash expires_at = record {
  id = id;
  family_id = family_id;
  user_id = user_id;
  token_hash = token_hash;
  expires_at = expires_at;
  consumed_at = none;
  revoked_at = none;
}

inserted :
    (id family_id user_id token_hash expires_at : ℕ) (rows rows' : List RefreshTokenRow)
    → insert rows id family_id user_id token_hash expires_at ≡ some rows'
    → (clashes id token_hash rows ≡ false)
      × (fresh_row id family_id user_id token_hash expires_at ∷ rows ≡ rows')
unfolding insert fresh_row
inserted id family_id user_id token_hash expires_at rows rows' e = ground arith

pub insert-Keyed :
    (id family_id user_id token_hash expires_at : ℕ) (rows rows' : List RefreshTokenRow)
    → insert rows id family_id user_id token_hash expires_at ≡ some rows'
    → Keyed rows
    → Keyed rows'
unfolding fresh_row
insert-Keyed id family_id user_id token_hash expires_at rows rows' e h =
    let (free, eq) = inserted id family_id user_id token_hash expires_at rows rows' e in
    subst Keyed eq (clashes-SameFamily id family_id token_hash rows free, h)

pub insert-SameFamily :
    (i fam id family_id user_id token_hash expires_at : ℕ) (rows rows' : List RefreshTokenRow)
    → insert rows id family_id user_id token_hash expires_at ≡ some rows'
    → id ≢ i
    → SameFamily i fam rows
    → SameFamily i fam rows'
unfolding fresh_row
insert-SameFamily i fam id family_id user_id token_hash expires_at rows rows' e d h =
    let (free, eq) = inserted id family_id user_id token_hash expires_at rows rows' e in
    subst (SameFamily i fam) eq (λ same. absurd (d same), h)
