-- ===== src/Auth/Tests.antt =====
-- Rotations at concrete inputs.
use ldktela.Base.{ℕ, ◌+◌, ◌≤◌, ◌≡◌, refl, true, List, [], ◌∷◌, none, arith}
use ldktela.Auth.{
  RefreshTokenRow, Draw, answered, token_reused, rotate_refresh, issue_session, issue_pair, insert,
  clashes, find_by_hash, is_usable, affected, consumes, advance, check, after_consume, consume,
  consume_rows, revoke_family, revoke_where,
}
use ldktela.Auth.Family.{live, is_live}
use ldktela.Auth.Rotation.{rotate_refresh-again}
use ldktela.Auth.Interleaving.{Event, arrives, queries, logs_in, idle, run, step, query_at}
use ldktela.Auth.Reuse.{live-run}

-- The draw of a request: a new token with that id, and that hash.
draw : ℕ → Draw
draw id = record {
  now = 1000;
  database_now = 1000;
  token_id = id;
  token_hash = 100 + id;
  refresh_token_ttl_days = 30;
  issues = true;
}

abbrev first_token : RefreshTokenRow
first_token = record {
  id = 1;
  family_id = 1;
  user_id = 7;
  token_hash = 101;
  expires_at = 5000;
  consumed_at = none;
  revoked_at = none;
}

rotate_refresh-again_example :
    ((rotate_refresh (rotate_refresh (first_token ∷ []) (draw 2) 101).0 (draw 3) 101).1
      ≡ answered token_reused)
    × (live 1 (rotate_refresh (rotate_refresh (first_token ∷ []) (draw 2) 101).0 (draw 3) 101).0
        ≡ 0)
unfolding draw find_by_hash is_usable affected consumes
rotate_refresh-again_example =
    rotate_refresh-again (first_token ∷ []) (draw 2) (draw 3) 101 first_token refl refl refl

-- A login, then two requests with one token: both read it, one consumes it, the other finds it
-- consumed and revokes the family, and only then the first inserts the next token.
abbrev race : List Event
race =
    logs_in (draw 1) 7
    ∷ arrives 101
    ∷ arrives 101
    ∷ queries 0 (draw 2)
    ∷ queries 1 (draw 3)
    ∷ queries 0 (draw 4)
    ∷ queries 1 (draw 5)
    ∷ queries 1 (draw 6)
    ∷ queries 0 (draw 8)
    ∷ []

live-run_example : live 1 (run idle race).tokens ≤ 1
unfolding draw run step issue_session issue_pair insert clashes query_at advance find_by_hash check
    after_consume consume consume_rows affected consumes revoke_family revoke_where
live-run_example = live-run 1 race (ground arith)

-- The family outlives the revocation.
race_survivor : live 1 (run idle race).tokens ≡ 1
unfolding draw run step issue_session issue_pair insert clashes query_at advance find_by_hash check
    live is_live after_consume consume consume_rows affected consumes revoke_family revoke_where
race_survivor = refl
