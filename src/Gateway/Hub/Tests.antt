-- ===== src/Gateway/Hub/Tests.antt =====
-- The registry of sessions at concrete inputs.
use ldktela.Base.{
  ℕ, ◌+◌, ◌≤◌, ◌≡◌, refl, none, some, List, [], ◌∷◌, length, ◌==◌, if◌then◌else◌, arith,
}
use ldktela.Base.Map.{get, insert, remove}
use ldktela.Gateway.Session
use ldktela.Gateway.Session.{Session}
use ldktela.Gateway.Hub.{
  GatewayConfig, new, owned_by, create_session, attach, drain, drop_sessions, resumable,
}
use ldktela.Gateway.Hub.Limit.{Call, attaches, run, step}
use ldktela.Gateway.Hub.Counting.{sessions_of}
use ldktela.Gateway.Hub.Registered.{length-sessions_of-run}
use ldktela.Gateway.Hub.Eviction.{resumable-attach}

abbrev two_connections : GatewayConfig
two_connections = record {
  session_ttl_ms = 90000;
  resume_buffer_size = 500;
  max_connections_per_user = 2;
}

session : ℕ → Session
session id = create_session two_connections id 7 (10 + id)

abbrev full : List Call
full = attaches (session 1) ∷ attaches (session 2) ∷ []

length-sessions_of-run_example :
    length (sessions_of 7 (run (new two_connections) full).sessions)
    ≤ two_connections.max_connections_per_user
length-sessions_of-run_example = length-sessions_of-run two_connections full 7 (omega arith)

-- With a limit of 0 nothing is counted, and every session stays registered.
abbrev no_connections : GatewayConfig
no_connections = record two_connections { max_connections_per_user = 0 }

all_registered : length (sessions_of 7 (run (new no_connections) full).sessions) ≡ 2
unfolding owned_by get run step attach insert new drain drop_sessions session create_session
    Session.new sessions_of remove
all_registered = refl

resumable-attach_example : resumable (attach (run (new two_connections) full) (session 3)).0 1 7 ≡ (
    if 3 == 1
    then if 7 == 7 then some (session 3) else none
    else if 1 == 1
    then none
    else resumable (run (new two_connections) full) 1 7)
unfolding owned_by get run step attach insert new drain drop_sessions session create_session
    Session.new
resumable-attach_example =
    resumable-attach (run (new two_connections) full) (session 3) 1 (2 ∷ []) 1 7 refl refl
