-- ===== src/Auth.antt =====
-- crates/db/src/repo/refresh_tokens.rs and crates/api/src/auth/session.rs: refresh tokens and their
-- rotation.
--
-- The table is a list of rows; a query is atomic, as the database makes it. A request is a machine
-- of phases, one query each, so that two requests may interleave between queries; a request alone
-- is `rotate_refresh`. Hashes are numbers, compared and never computed: hashing a secret
-- (auth/token.rs) is not modelled. Instants are seconds.
pub mod Family
pub mod Requests
pub mod Tracking
pub mod Interleaving
pub mod Rotation
pub mod Reuse
mod Tests
use ldktela.Base.{
  ℕ, ◌+◌, ◌*◌, Bool, true, false, not, ◌&&◌, ◌||◌, Option, none, some, List, [], ◌∷◌, ◌++◌, ltb,
  leb, ◌==◌, any, find?, keep_if, if◌then◌else◌,
}

pub record RefreshTokenRow : Type 0 where
  pub id : ℕ
  pub family_id : ℕ
  pub user_id : ℕ
  pub token_hash : ℕ
  pub expires_at : ℕ
  pub consumed_at : Option ℕ
  pub revoked_at : Option ℕ

abbrev pub is_none {ℓ} : {A : Type ℓ} → Option A → Bool
is_none none = true
is_none (some a) = false

unfoldable pub is_usable : RefreshTokenRow → ℕ → Bool
is_usable row now = is_none row.consumed_at && is_none row.revoked_at && ltb now row.expires_at

-- The primary key and the unique hash refuse a row: the query is then an error.
unfoldable pub clashes : ℕ → ℕ → List RefreshTokenRow → Bool
clashes id token_hash [] = false
clashes id token_hash (r ∷ rows) =
    let rest : Bool = clashes id token_hash rows in
    if r.id == id then true else if r.token_hash == token_hash then true else rest

unfoldable pub insert : List RefreshTokenRow → ℕ → ℕ → ℕ → ℕ → ℕ → Option (List RefreshTokenRow)
insert rows id family_id user_id token_hash expires_at =
    if clashes id token_hash rows
    then none
    else some (
        record {
          id = id;
          family_id = family_id;
          user_id = user_id;
          token_hash = token_hash;
          expires_at = expires_at;
          consumed_at = none;
          revoked_at = none;
        }
        ∷ rows)

unfoldable pub find_by_hash : List RefreshTokenRow → ℕ → Option RefreshTokenRow
find_by_hash [] token_hash = none
find_by_hash (r ∷ rows) token_hash =
    let rest : Option RefreshTokenRow = find_by_hash rows token_hash in
    if r.token_hash == token_hash then some r else rest

-- `WHERE id = $1 AND consumed_at IS NULL AND revoked_at IS NULL`
unfoldable pub consumes : ℕ → RefreshTokenRow → Bool
consumes id r = r.id == id && is_none r.consumed_at && is_none r.revoked_at

unfoldable pub consume_rows : List RefreshTokenRow → ℕ → ℕ → List RefreshTokenRow
consume_rows [] id now = []
consume_rows (r ∷ rows) id now =
    let rest : List RefreshTokenRow = consume_rows rows id now in
    if consumes id r then record r { consumed_at = some now } ∷ rest else r ∷ rest

-- `rows_affected` of an update with that condition.
unfoldable pub affected : (RefreshTokenRow → Bool) → List RefreshTokenRow → ℕ
affected p [] = 0
affected p (r ∷ rows) = let rest : ℕ = affected p rows in if p r then 1 + rest else rest

unfoldable pub consume : List RefreshTokenRow → ℕ → ℕ → List RefreshTokenRow × Bool
consume rows id now = (consume_rows rows id now, affected (consumes id) rows == 1)

-- `UPDATE .. SET revoked_at = NOW() WHERE p AND revoked_at IS NULL`
unfoldable pub revoke_where :
    (RefreshTokenRow → Bool) → List RefreshTokenRow → ℕ → List RefreshTokenRow
revoke_where p [] now = []
revoke_where p (r ∷ rows) now =
    let rest : List RefreshTokenRow = revoke_where p rows now in
    if p r && is_none r.revoked_at then record r { revoked_at = some now } ∷ rest else r ∷ rest

unfoldable pub revoke_family : List RefreshTokenRow → ℕ → ℕ → List RefreshTokenRow
revoke_family rows family_id now = revoke_where (λ r. r.family_id == family_id) rows now

unfoldable pub revoke_all_for_user : List RefreshTokenRow → ℕ → ℕ → List RefreshTokenRow
revoke_all_for_user rows user_id now = revoke_where (λ r. r.user_id == user_id) rows now

unfoldable pub delete_expired : List RefreshTokenRow → ℕ → ℕ → List RefreshTokenRow
delete_expired rows grace_days now =
    keep_if (λ r. not (ltb (r.expires_at + grace_days * 86400) now)) rows

-- What a request answers.
pub data Answer : Type 0 where
  issued unauthorized token_reused failed : Answer

-- Where a request to rotate stands, between two queries.
pub data Phase : Type 0 where
  presented : ℕ → Phase
  checked reused won : RefreshTokenRow → Phase
  answered : Answer → Phase

-- What the request draws or is told from outside: its clock, the database's, the id and the hash of the new token,
-- the configured lifetime in days, and whether the user is found and the access token signed.
pub record Draw : Type 0 where
  pub now : ℕ
  pub database_now : ℕ
  pub token_id : ℕ
  pub token_hash : ℕ
  pub refresh_token_ttl_days : ℕ
  pub issues : Bool

-- What the row says before `consume` is tried.
unfoldable pub check : RefreshTokenRow → ℕ → Phase
check row now =
    if not (is_none row.consumed_at)
    then reused row
    else if not (is_none row.revoked_at)
    then answered unauthorized
    else if leb row.expires_at now
    then answered unauthorized
    else checked row

unfoldable pub after_consume :
    RefreshTokenRow → List RefreshTokenRow × Bool → List RefreshTokenRow × Phase
after_consume row (rows, true) = (rows, won row)
after_consume row (rows, false) = (rows, reused row)

-- `issue_pair`: an insert that fails leaves the table.
unfoldable pub issue_pair : List RefreshTokenRow → Draw → ℕ → ℕ → ℕ → List RefreshTokenRow × Answer
issue_pair rows d token_id family_id user_id =
    if not d.issues
    then (rows, failed)
    else elim (insert rows token_id family_id user_id d.token_hash
        (d.now + d.refresh_token_ttl_days * 86400)) [
          | none ↦ (rows, failed)
          | some rows' ↦ (rows', issued)
        ]

unfoldable pub advance : List RefreshTokenRow → Draw → Phase → List RefreshTokenRow × Phase
advance rows d (presented hash) = elim (find_by_hash rows hash) [
  | none ↦ (rows, answered unauthorized)
  | some row ↦ (rows, check row d.now)
]
advance rows d (checked row) = after_consume row (consume rows row.id d.database_now)
advance rows d (reused row) =
    (revoke_family rows row.family_id d.database_now, answered token_reused)
advance rows d (won row) =
    let out : List RefreshTokenRow × Answer =
      issue_pair rows d d.token_id row.family_id row.user_id in
    (out.0, answered out.1)
advance rows d (answered a) = (rows, answered a)

-- A request that nothing interleaves with: three queries reach an answer.
unfoldable pub rotate_refresh : List RefreshTokenRow → Draw → ℕ → List RefreshTokenRow × Phase
rotate_refresh rows d hash =
    let first : List RefreshTokenRow × Phase = advance rows d (presented hash) in
    let second : List RefreshTokenRow × Phase = advance first.0 d first.1 in
    advance second.0 d second.1

-- A login: the new token is the first of its family.
unfoldable pub issue_session : List RefreshTokenRow → Draw → ℕ → List RefreshTokenRow × Answer
issue_session rows d user_id = issue_pair rows d d.token_id d.token_id user_id

-- Between its two queries the family of the row cannot change, so they are one step here.
unfoldable pub revoke_session : List RefreshTokenRow → ℕ → ℕ → List RefreshTokenRow
revoke_session rows hash now = elim (find_by_hash rows hash) [
  | none ↦ rows
  | some row ↦ revoke_family rows row.family_id now
]
