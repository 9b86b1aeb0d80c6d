-- ===== src/Auth/Rotation.antt =====
-- A rotation that nothing interleaves with (`rotate_refresh` of crates/api/src/auth/session.rs).
use ldktela.Base.{
  sym, ap, ◌∙◌, ℕ, ◌≡◌, refl, inl, inr, true, false, none, some, List, [], ◌∷◌, if◌then◌else◌,
  arith,
}
use ldktela.Auth.{
  token_reused, RefreshTokenRow, presented, checked, reused, won, answered, Draw, is_none,
  is_usable, clashes, insert, find_by_hash, consumes, consume_rows, affected, consume,
  revoke_family, check, after_consume, issue_pair, advance, rotate_refresh,
}
use ldktela.Auth.Tracking.{issue_pair-cases}
use ldktela.Auth.Family.{live, live-revoke_family}

marked : ℕ → ℕ → RefreshTokenRow → RefreshTokenRow
marked id now r = if consumes id r then record r { consumed_at = some now } else r

find-consume :
    (rows : List RefreshTokenRow) (hash id now : ℕ)
    → find_by_hash (consume_rows rows id now) hash
      ≡ elim (find_by_hash rows hash) [ none ↦ none | some r ↦ some (marked id now r) ]
unfolding find_by_hash consume_rows marked
find-consume [] hash id now = refl
find-consume (r ∷ rows) hash id now = ground (arith, find-consume rows hash id now)

clashes-find :
    (rows : List RefreshTokenRow) (id hash : ℕ) (row : RefreshTokenRow)
    → find_by_hash rows hash ≡ some row
    → clashes id hash rows ≡ true
unfolding find_by_hash clashes
clashes-find [] id hash row e = cc
clashes-find (r ∷ rows) id hash row e = ground (arith, clashes-find rows id hash row)

insert-find :
    (hash id family_id user_id token_hash expires_at : ℕ) (rows rows' : List RefreshTokenRow)
    (row : RefreshTokenRow)
    → insert rows id family_id user_id token_hash expires_at ≡ some rows'
    → find_by_hash rows hash ≡ some row
    → find_by_hash rows' hash ≡ some row
unfolding insert find_by_hash
insert-find hash id family_id user_id token_hash expires_at rows rows' row e found =
    ground (arith, clashes-find rows id hash row found)

issue_pair-find :
    (hash : ℕ) (rows : List RefreshTokenRow) (d : Draw) (token_id family_id user_id : ℕ)
    (row : RefreshTokenRow)
    → find_by_hash rows hash ≡ some row
    → find_by_hash (issue_pair rows d token_id family_id user_id).0 hash ≡ some row
issue_pair-find hash rows d token_id family_id user_id row found =
    elim (issue_pair-cases rows d token_id family_id user_id) [
      | inl same ↦ ap (λ t. find_by_hash t hash) (sym same) ∙ found
      | inr more ↦ insert-find hash token_id family_id user_id _ _ rows _ row more found
    ]

advance-found :
    (rows : List RefreshTokenRow) (d : Draw) (hash : ℕ) (row : RefreshTokenRow)
    → find_by_hash rows hash ≡ some row
    → advance rows d (presented hash) ≡ (rows, check row d.now)
unfolding advance
advance-found rows d hash row e = rw (e, advance) refl

check-consumed :
    (row : RefreshTokenRow) (now : ℕ) → is_none row.consumed_at ≡ false → check row now ≡ reused row
unfolding check
check-consumed row now c = ground arith

check-usable :
    (row : RefreshTokenRow) (now : ℕ) → is_usable row now ≡ true → check row now ≡ checked row
unfolding check is_usable
check-usable row now u = ground arith

-- A token that was consumed earlier: the family falls.
rotate-consumed :
    (rows : List RefreshTokenRow) (d : Draw) (hash : ℕ) (row : RefreshTokenRow)
    → find_by_hash rows hash ≡ some row
    → is_none row.consumed_at ≡ false
    → rotate_refresh rows d hash
      ≡ (revoke_family rows row.family_id d.database_now, answered token_reused)
unfolding rotate_refresh advance
rotate-consumed rows d hash row e c =
    rw (advance-found rows d hash row e, check-consumed row d.now c) refl

advance-checked :
    (rows : List RefreshTokenRow) (d : Draw) (row : RefreshTokenRow)
    → affected (consumes row.id) rows ≡ 1
    → advance rows d (checked row) ≡ (consume_rows rows row.id d.database_now, won row)
unfolding advance consume after_consume
advance-checked rows d row one = rw (one, advance, consume) refl

-- A usable token: it is consumed, and the next of its family is issued.
rotate-usable :
    (rows : List RefreshTokenRow) (d : Draw) (hash : ℕ) (row : RefreshTokenRow)
    → find_by_hash rows hash ≡ some row
    → is_usable row d.now ≡ true
    → affected (consumes row.id) rows ≡ 1
    → (rotate_refresh rows d hash).0
      ≡ (issue_pair
          (consume_rows rows row.id d.database_now)
          d
          d.token_id
          row.family_id
          row.user_id).0
unfolding rotate_refresh advance
rotate-usable rows d hash row e u one =
    rw (advance-found rows d hash row e, check-usable row d.now u, advance-checked rows d row one)
      refl

consumed-marked :
    (row : RefreshTokenRow) (now later : ℕ)
    → is_usable row now ≡ true
    → is_none (marked row.id later row).consumed_at ≡ false
unfolding marked is_usable consumes
consumed-marked row now later u = ground arith

marked-family : (row : RefreshTokenRow) (id now : ℕ) → (marked id now row).family_id ≡ row.family_id
unfolding marked
marked-family row id now = ground arith

-- A usable token that was rotated, alone among its rows under its id, and is presented again at any
-- later time: the answer is `TokenReused` and no token of the family is live, also not the one that
-- the rotation issued.
pub rotate_refresh-again :
    (rows : List RefreshTokenRow) (d again : Draw) (hash : ℕ) (row : RefreshTokenRow)
    → find_by_hash rows hash ≡ some row
    → is_usable row d.now ≡ true
    → affected (consumes row.id) rows ≡ 1
    → ((rotate_refresh (rotate_refresh rows d hash).0 again hash).1 ≡ answered token_reused)
      × (live row.family_id (rotate_refresh (rotate_refresh rows d hash).0 again hash).0 ≡ 0)
rotate_refresh-again rows d again hash row e u one =
    let table : List RefreshTokenRow = consume_rows rows row.id d.database_now in
    let old : RefreshTokenRow = marked row.id d.database_now row in
    let seen : find_by_hash table hash ≡ some old =
      find-consume rows hash row.id d.database_now ∙ rw e refl in
    let found : find_by_hash (rotate_refresh rows d hash).0 hash ≡ some old =
      ap (λ t. find_by_hash t hash) (rotate-usable rows d hash row e u one)
      ∙ issue_pair-find hash table d d.token_id row.family_id row.user_id old seen in
    let fell =
      rotate-consumed (rotate_refresh rows d hash).0 again hash old found
        (consumed-marked row d.now d.database_now u) in
    (
      ap (λ o. o.1) fell,
      ap (λ o. live row.family_id o.0) fell
          ∙ live-revoke_family row.family_id old.family_id again.database_now _
          ∙ rw (marked-family row row.id d.database_now) (ground arith),
    )
