-- ===== src/Auth/Interleaving.antt =====
-- The server while logins, rotations, logouts and housekeeping interleave, one query at a time
-- (crates/api/src/auth/session.rs).
use ldktela.Base.{ℕ, zero, suc, ◌+◌, ◌≤◌, List, [], ◌∷◌, arith}
use ldktela.Auth.{
  RefreshTokenRow, Phase, presented, Draw, revoke_all_for_user, delete_expired, advance,
  issue_session, revoke_session,
}
use ldktela.Auth.Family.{live, Keyed}
use ldktela.Auth.Requests.{pending, Tracked, Unborn, AllApart, advance-live}
use ldktela.Auth.Tracking.{
  Keeps, Keeps-Track, Keeps-Tracked, advance-SameFamily, advance-Keyed, advance-Track,
}

-- The table, and the requests under way.
pub record Server : Type 0 where
  pub tokens : List RefreshTokenRow
  pub requests : List Phase

abbrev pub idle : Server
idle = record { tokens = []; requests = [] }

pub data Event : Type 0 where
  arrives : ℕ → Event
  queries : ℕ → Draw → Event
  logs_in : Draw → ℕ → Event
  logs_out : ℕ → ℕ → Event
  signs_out_everywhere : ℕ → ℕ → Event
  cleans_up : ℕ → ℕ → Event

-- The next query of the request at a position.
unfoldable pub query_at :
    List RefreshTokenRow → Draw → ℕ → List Phase → List RefreshTokenRow × List Phase
query_at rows d i [] = (rows, [])
query_at rows d zero (p ∷ ps) =
    let out : List RefreshTokenRow × Phase = advance rows d p in (out.0, out.1 ∷ ps)
query_at rows d (suc i) (p ∷ ps) =
    let out : List RefreshTokenRow × List Phase = query_at rows d i ps in (out.0, p ∷ out.1)

unfoldable pub step : Server → Event → Server
step s (arrives hash) = record s { requests = presented hash ∷ s.requests }
step s (queries i d) =
    let out : List RefreshTokenRow × List Phase = query_at s.tokens d i s.requests in
    record { tokens = out.0; requests = out.1 }
step s (logs_in d user) = record s { tokens = (issue_session s.tokens d user).0 }
step s (logs_out hash now) = record s { tokens = revoke_session s.tokens hash now }
step s (signs_out_everywhere user now) = record s { tokens = revoke_all_for_user s.tokens user now }
step s (cleans_up days now) = record s { tokens = delete_expired s.tokens days now }

unfoldable pub run : Server → List Event → Server
run s [] = s
run s (e ∷ es) = run (step s e) es

-- The ids that are drawn are new.
abbrev pub Drawn : Server → Event → Type 0
Drawn s (arrives hash) = Unit
Drawn s (queries i d) = AllApart d.token_id s.requests
Drawn s (logs_in d user) = Unborn d.token_id s.tokens × AllApart d.token_id s.requests
Drawn s (logs_out hash now) = Unit
Drawn s (signs_out_everywhere user now) = Unit
Drawn s (cleans_up days now) = Unit

abbrev pub AllDrawn : Server → List Event → Type 0
AllDrawn s [] = Unit
AllDrawn s (e ∷ es) = Drawn s e × AllDrawn (step s e) es

pub query_at-live :
    (f : ℕ) (rows : List RefreshTokenRow) (d : Draw) (i : ℕ) (ps : List Phase)
    → Tracked rows ps
    → live f (query_at rows d i ps).0 + pending f (query_at rows d i ps).1
      ≤ live f rows + pending f ps
unfolding query_at pending
query_at-live f rows d i [] t = omega arith
query_at-live f rows d zero (p ∷ ps) t = omega (arith, advance-live f rows d p t.0)
query_at-live f rows d (suc i) (p ∷ ps) t = omega (arith, query_at-live f rows d i ps t.1)

pub query_at-Keyed :
    (rows : List RefreshTokenRow) (d : Draw) (i : ℕ) (ps : List Phase)
    → Keyed rows
    → Keyed (query_at rows d i ps).0
unfolding query_at
query_at-Keyed rows d i [] h = h
query_at-Keyed rows d zero (p ∷ ps) h = advance-Keyed rows d p h
query_at-Keyed rows d (suc i) (p ∷ ps) h = query_at-Keyed rows d i ps h

pub query_at-Keeps :
    (rows : List RefreshTokenRow) (d : Draw) (i : ℕ) (ps : List Phase)
    → Keeps d.token_id rows (query_at rows d i ps).0
unfolding query_at Keeps
query_at-Keeps rows d i [] = λ j fam new h. h
query_at-Keeps rows d zero (p ∷ ps) = λ j fam new h. advance-SameFamily j fam rows d p new h
query_at-Keeps rows d (suc i) (p ∷ ps) = query_at-Keeps rows d i ps

pub query_at-Tracked :
    (rows : List RefreshTokenRow) (d : Draw) (i : ℕ) (ps : List Phase)
    → Keyed rows
    → AllApart d.token_id ps
    → Tracked rows ps
    → Tracked (query_at rows d i ps).0 (query_at rows d i ps).1
unfolding query_at
query_at-Tracked rows d i [] h a t = tt
query_at-Tracked rows d zero (p ∷ ps) h a t = (
  advance-Track rows d p h,
  Keeps-Tracked d.token_id rows (advance rows d p).0 ps (query_at-Keeps rows d zero (p ∷ ps)) a.1
      t.1,
)
query_at-Tracked rows d (suc i) (p ∷ ps) h a t = (
  Keeps-Track d.token_id rows (query_at rows d i ps).0 p (query_at-Keeps rows d i ps) a.0 t.0,
  query_at-Tracked rows d i ps h a.1 t.1,
)
