-- ===== src/Auth/Requests.antt =====
-- Requests that interleave between their queries (crates/api/src/auth/session.rs): a family has at
-- most one live token, whatever the order.
--
-- Every query may read its own clock and draw its own id, which allows more than a request does.
use ldktela.Base.{
  ℕ, ◌+◌, ◌*◌, ◌≤◌, ◌≡◌, ◌≢◌, inl, inr, Option, none, some, List, [], ◌∷◌, ◌==◌, if◌then◌else◌,
  arith, Option-cases,
}
use ldktela.Auth.{
  unauthorized, RefreshTokenRow, Phase, presented, checked, reused, won, answered, Draw, insert,
  find_by_hash, consume, check, after_consume, issue_pair, advance,
}
use ldktela.Auth.Family.{live, SameFamily, live-consume, live-revoke_family, insert-live}

-- A request that has consumed a token and not yet inserted the next counts for its family.
unfoldable pub pend : ℕ → Phase → ℕ
pend f (won row) = if row.family_id == f then 1 else 0
pend f (presented hash) = 0
pend f (checked row) = 0
pend f (reused row) = 0
pend f (answered a) = 0

unfoldable pub pending : ℕ → List Phase → ℕ
pending f [] = 0
pending f (p ∷ ps) = pend f p + pending f ps

-- What a request read of its token still says its family.
abbrev pub Track : List RefreshTokenRow → Phase → Type 0
Track rows (checked row) = SameFamily row.id row.family_id rows
Track rows (presented hash) = Unit
Track rows (reused row) = Unit
Track rows (won row) = Unit
Track rows (answered a) = Unit

abbrev pub Tracked : List RefreshTokenRow → List Phase → Type 0
Tracked rows [] = Unit
Tracked rows (p ∷ ps) = Track rows p × Tracked rows ps

-- A new id is no row's, no family's, and no request's.
abbrev pub Unborn : ℕ → List RefreshTokenRow → Type 0
Unborn id [] = Unit
Unborn id (r ∷ rows) = (id ≢ r.family_id) × Unborn id rows

abbrev pub Apart : ℕ → Phase → Type 0
Apart id (checked row) = (id ≢ row.id) × (id ≢ row.family_id)
Apart id (won row) = (id ≢ row.id) × (id ≢ row.family_id)
Apart id (reused row) = Unit
Apart id (presented hash) = Unit
Apart id (answered a) = Unit

abbrev pub AllApart : ℕ → List Phase → Type 0
AllApart id [] = Unit
AllApart id (p ∷ ps) = Apart id p × AllApart id ps

pub issue_pair-live :
    (f : ℕ) (rows : List RefreshTokenRow) (d : Draw) (token_id family_id user_id : ℕ)
    → live f (issue_pair rows d token_id family_id user_id).0
      ≤ live f rows + (if family_id == f then 1 else 0)
unfolding issue_pair
issue_pair-live f rows d token_id family_id user_id =
    elim (Option-cases (
      insert rows token_id family_id user_id d.token_hash
        (d.now + d.refresh_token_ttl_days * 86400))) [
          | inl over ↦ ground arith
          | inr (rows', ok) ↦ ground (
            arith,
            insert-live f token_id family_id user_id d.token_hash
                (d.now + d.refresh_token_ttl_days * 86400) rows rows' ok,
          )
        ]

check-pend : (f now : ℕ) (row : RefreshTokenRow) → pend f (check row now) ≡ 0
unfolding check pend
check-pend f now row = ground arith

presented-pend :
    (f now : ℕ) (rows : List RefreshTokenRow) (o : Option RefreshTokenRow)
    → live f
          (elim o as (λ x. List RefreshTokenRow × Phase) [
            | none ↦ (rows, answered unauthorized)
            | some row ↦ (rows, check row now)
          ]).0
        + pend f
            (elim o as (λ x. List RefreshTokenRow × Phase) [
              | none ↦ (rows, answered unauthorized)
              | some row ↦ (rows, check row now)
            ]).1
      ≤ live f rows
unfolding pend
presented-pend f now rows none = ground arith
presented-pend f now rows (some row) = ground (arith, check-pend f now row)

-- One query, the row that its request holds being tracked.
pub advance-live :
    (f : ℕ) (rows : List RefreshTokenRow) (d : Draw) (p : Phase)
    → Track rows p
    → live f (advance rows d p).0 + pend f (advance rows d p).1 ≤ live f rows + pend f p
unfolding advance pend consume after_consume
advance-live f rows d (presented hash) t =
    ground (arith, presented-pend f d.now rows (find_by_hash rows hash))
advance-live f rows d (checked row) t =
    ground (arith, live-consume f row.id row.family_id d.database_now rows t)
advance-live f rows d (reused row) t =
    ground (arith, live-revoke_family f row.family_id d.database_now rows)
advance-live f rows d (won row) t =
    omega (arith, issue_pair-live f rows d d.token_id row.family_id row.user_id)
advance-live f rows d (answered a) t = ground arith
