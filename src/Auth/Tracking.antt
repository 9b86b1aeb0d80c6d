-- ===== src/Auth/Tracking.antt =====
-- What a waiting request read of its token stays true while others run their queries
-- (crates/api/src/auth/session.rs).
use ldktela.Base.{
  ◌⊎◌, ℕ, ◌+◌, ◌*◌, ◌≡◌, ◌≢◌, inl, inr, Bool, true, false, some, List, [], ◌∷◌, ◌==◌, arith,
  Option-cases,
}
use mathlib.Core.Path.{subst}
use ldktela.Auth.{
  unauthorized, RefreshTokenRow, Phase, presented, checked, reused, won, answered, Draw, insert,
  find_by_hash, consume_rows, consume, revoke_family, check, after_consume, issue_pair, advance,
}
use ldktela.Auth.Family.{
  SameFamily, Keyed, consume-SameFamily, revoke-SameFamily, consume-Keyed, revoke-Keyed, find-Keyed,
  insert-Keyed, insert-SameFamily,
}
use ldktela.Auth.Requests.{Track, Tracked, Apart, AllApart}

-- The table after `issue_pair`: as it was, or with a row inserted.
pub issue_pair-cases :
    (rows : List RefreshTokenRow) (d : Draw) (token_id family_id user_id : ℕ)
    → (rows ≡ (issue_pair rows d token_id family_id user_id).0)
      ⊎ (insert rows token_id family_id user_id d.token_hash
            (d.now + d.refresh_token_ttl_days * 86400)
          ≡ some (issue_pair rows d token_id family_id user_id).0)
unfolding issue_pair
issue_pair-cases rows d token_id family_id user_id = ground arith

pub issue_pair-Track :
    (i fam : ℕ) (rows : List RefreshTokenRow) (d : Draw) (token_id family_id user_id : ℕ)
    → token_id ≢ i
    → SameFamily i fam rows
    → SameFamily i fam (issue_pair rows d token_id family_id user_id).0
issue_pair-Track i fam rows d token_id family_id user_id new h =
    elim (issue_pair-cases rows d token_id family_id user_id) [
      | inl same ↦ subst (SameFamily i fam) same h
      | inr more ↦ insert-SameFamily i fam token_id family_id user_id _ _ rows _ more new h
    ]

pub issue_pair-Keyed :
    (rows : List RefreshTokenRow) (d : Draw) (token_id family_id user_id : ℕ)
    → Keyed rows
    → Keyed (issue_pair rows d token_id family_id user_id).0
issue_pair-Keyed rows d token_id family_id user_id h =
    elim (issue_pair-cases rows d token_id family_id user_id) [
      | inl same ↦ subst Keyed same h
      | inr more ↦ insert-Keyed token_id family_id user_id _ _ rows _ more h
    ]

presented-rows :
    (rows : List RefreshTokenRow) (d : Draw) (hash : ℕ) → rows ≡ (advance rows d (presented hash)).0
unfolding advance
presented-rows rows d hash = ground arith

checked-rows :
    (rows : List RefreshTokenRow) (d : Draw) (row : RefreshTokenRow)
    → consume_rows rows row.id d.database_now ≡ (advance rows d (checked row)).0
unfolding advance consume after_consume
checked-rows rows d row = ground arith

pub advance-Keyed :
    (rows : List RefreshTokenRow) (d : Draw) (p : Phase) → Keyed rows → Keyed (advance rows d p).0
unfolding advance revoke_family
advance-Keyed rows d (presented hash) h = subst Keyed (presented-rows rows d hash) h
advance-Keyed rows d (checked row) h =
    subst Keyed (checked-rows rows d row) (consume-Keyed row.id d.database_now rows h)
advance-Keyed rows d (reused row) h =
    revoke-Keyed d.database_now (λ r. r.family_id == row.family_id) rows h
advance-Keyed rows d (won row) h = issue_pair-Keyed rows d d.token_id row.family_id row.user_id h
advance-Keyed rows d (answered a) h = h

-- A row read earlier is still of its family after another request's query.
pub advance-SameFamily :
    (i fam : ℕ) (rows : List RefreshTokenRow) (d : Draw) (p : Phase)
    → d.token_id ≢ i
    → SameFamily i fam rows
    → SameFamily i fam (advance rows d p).0
unfolding advance revoke_family
advance-SameFamily i fam rows d (presented hash) new h =
    subst (SameFamily i fam) (presented-rows rows d hash) h
advance-SameFamily i fam rows d (checked row) new h =
    subst (SameFamily i fam) (checked-rows rows d row)
      (consume-SameFamily i fam row.id d.database_now rows h)
advance-SameFamily i fam rows d (reused row) new h =
    revoke-SameFamily i fam d.database_now (λ r. r.family_id == row.family_id) rows h
advance-SameFamily i fam rows d (won row) new h =
    issue_pair-Track i fam rows d d.token_id row.family_id row.user_id new h
advance-SameFamily i fam rows d (answered a) new h = h

-- What `rows'` keeps of every request that waits.
unfoldable pub Keeps : ℕ → List RefreshTokenRow → List RefreshTokenRow → Type 0
Keeps id rows rows' = (i fam : ℕ) → id ≢ i → SameFamily i fam rows → SameFamily i fam rows'

pub Keeps-Track :
    (id : ℕ) (rows rows' : List RefreshTokenRow) (p : Phase)
    → Keeps id rows rows'
    → Apart id p
    → Track rows p
    → Track rows' p
unfolding Keeps
Keeps-Track id rows rows' (checked row) k a t = k row.id row.family_id a.0 t
Keeps-Track id rows rows' (presented hash) k a t = tt
Keeps-Track id rows rows' (reused row) k a t = tt
Keeps-Track id rows rows' (won row) k a t = tt
Keeps-Track id rows rows' (answered x) k a t = tt

pub Keeps-Tracked :
    (id : ℕ) (rows rows' : List RefreshTokenRow) (ps : List Phase)
    → Keeps id rows rows'
    → AllApart id ps
    → Tracked rows ps
    → Tracked rows' ps
Keeps-Tracked id rows rows' [] k a t = tt
Keeps-Tracked id rows rows' (p ∷ ps) k a t =
    (Keeps-Track id rows rows' p k a.0 t.0, Keeps-Tracked id rows rows' ps k a.1 t.1)

check-cases :
    (row : RefreshTokenRow) (now : ℕ)
    → (reused row ≡ check row now)
      ⊎ (answered unauthorized ≡ check row now)
      ⊎ (checked row ≡ check row now)
unfolding check
check-cases row now = ground arith

check-Track :
    (rows : List RefreshTokenRow) (row : RefreshTokenRow) (now : ℕ)
    → SameFamily row.id row.family_id rows
    → Track rows (check row now)
check-Track rows row now h = elim (check-cases row now) [
  | inl e ↦ subst (Track rows) e tt
  | inr (inl e) ↦ subst (Track rows) e tt
  | inr (inr e) ↦ subst (Track rows) e h
]

after_consume-Track :
    (row : RefreshTokenRow) (out : List RefreshTokenRow × Bool)
    → Track (after_consume row out).0 (after_consume row out).1
unfolding after_consume
after_consume-Track row (rows, true) = tt
after_consume-Track row (rows, false) = tt

-- The request's own row, after its query.
pub advance-Track :
    (rows : List RefreshTokenRow) (d : Draw) (p : Phase)
    → Keyed rows
    → Track (advance rows d p).0 (advance rows d p).1
unfolding advance
advance-Track rows d (presented hash) h = elim (Option-cases (find_by_hash rows hash)) [
  | inl e ↦ rw (e, advance) tt
  | inr (row, e) ↦ rw (e, advance) (check-Track rows row d.now (find-Keyed hash rows row h e))
]
advance-Track rows d (checked row) h = after_consume-Track row (consume rows row.id d.database_now)
advance-Track rows d (reused row) h = tt
advance-Track rows d (won row) h = tt
advance-Track rows d (answered a) h = tt
