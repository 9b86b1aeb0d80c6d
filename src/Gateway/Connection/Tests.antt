-- ===== src/Gateway/Connection/Tests.antt =====
-- Concrete runs of a connection, and its theorems at concrete inputs.
use ldktela.Base.{ℕ, zero, suc, ◌≤◌, ◌≡◌, refl, true, false, none, List, [], ◌∷◌, arith}
use ldktela.Base.Decimal.{digits, parse_nat}
use ldktela.Base.Map.{get, insert}
use ldktela.Protocol.{resumed, dispatched}
use ldktela.Gateway.Session
use ldktela.Gateway.Session.History.{Call, event, drops, attaches, step, run, events}
use ldktela.Gateway.Hub.{Registry}
use ldktela.Gateway.Connection.{
  Meanwhile, allow_frame, start_window, dispatch_all, joined, send_all, replay, continue_session,
  resume,
}
use ldktela.Gateway.Hub
use ldktela.Gateway.Connection.Version.{
  check_client_version, parse_version, parse_parts, parse_u32, split_dots, core, at_least,
  min_client_version,
}
use ldktela.Gateway.Connection.Window.{all_allowed, count_from, count_from-all_allowed}
use ldktela.Gateway.Connection.Handshake.{Resumed, resume-Resumed}

abbrev pub repeat : ℕ → ℕ → List ℕ → List ℕ
repeat zero t rest = rest
repeat (suc n) t rest = t ∷ repeat n t rest

-- The bound is met: 30 frames at the end of a window and 30 at the start of the next, within two
-- milliseconds.
sixty_at_once :
    let times : List ℕ = repeat 30 60_000 (repeat 30 60_001 []) in
    (all_allowed (record { session = none; window_started = 0; frames_in_window = 0 }) times ≡ true)
    × (count_from 60_000 times ≡ 60)
unfolding all_allowed allow_frame start_window count_from
sixty_at_once = (refl, refl)

-- "2.1.0-beta.2" and "1.9"
new_client :
    check_client_version
      (record { version = 0x32 ∷ 0x2e ∷ 0x31 ∷ 0x2e ∷ 0x30 ∷ 0x2d ∷ 0x62 ∷ 0x2e ∷ 0x32 ∷ [] })
    ≡ true
unfolding check_client_version parse_version parse_parts parse_u32 parse_nat digits split_dots core
    at_least min_client_version
new_client = refl

old_client : check_client_version (record { version = 0x31 ∷ 0x2e ∷ 0x39 ∷ [] }) ≡ false
unfolding check_client_version parse_version parse_parts parse_u32 parse_nat digits split_dots core
    at_least min_client_version
old_client = refl

count_from-all_allowed_example :
    count_from 500 (repeat 3 400 (repeat 20 700 (repeat 5 61_000 []))) ≤ 60
unfolding all_allowed allow_frame start_window
count_from-all_allowed_example =
    count_from-all_allowed none 300 500 (repeat 3 400 (repeat 20 700 (repeat 5 61_000 [])))
      (omega arith) refl

abbrev calls : List Call
calls = event (resumed 7) ∷ event (resumed 8) ∷ drops 90 ∷ event (resumed 9) ∷ []

abbrev one_session : Registry
one_session = record {
  config = record { session_ttl_ms = 1000; resume_buffer_size = 4; max_connections_per_user = 4 };
  sessions = (5, run (Session.new 5 2 30 4) calls) ∷ [];
  by_user = (2, 5 ∷ []) ∷ [];
}

-- An event before the new queue, and one before the first replayed frame.
abbrev others : Meanwhile
others = record { before = resumed 10 ∷ []; during = (resumed 11 ∷ []) ∷ [] }

resume-Resumed_example : Resumed 5 2 30 4 calls 1 31 77 one_session others true
unfolding get events
resume-Resumed_example = resume-Resumed 5 2 30 4 calls 1 31 77 one_session others (omega arith) refl

-- The event with number 4 is sent to nobody, and the client is told that it has resumed.
fourth_lost :
    (resume one_session 2 (record { token = 77; session_id = 5; last_seq = 1 }) 31 others).sent
    ≡ (31, dispatched (record { s = 5; event = resumed 11 }))
      ∷ (31, dispatched (record { s = 2; event = resumed 8 }))
      ∷ (31, dispatched (record { s = 3; event = resumed 9 }))
      ∷ (31, dispatched (record { s = 6; event = resumed 2 }))
      ∷ []
unfolding resume continue_session replay send_all dispatch_all joined run step get Hub.resumable
    Hub.if_owner Session.new Session.dispatch Session.make_room Session.send_text Session.reconnect
    Session.disconnect Session.replay_after insert
fourth_lost = refl

-- The end of the old connection calls `disconnect` on the session that a new one has resumed.
silenced :
    (Session.dispatch (run (Session.new 5 2 30 4) (attaches 31 ∷ drops 95 ∷ [])) (resumed 7)).1 ≡ []
unfolding run step Session.new Session.reconnect Session.disconnect Session.dispatch
    Session.make_room Session.send_text
silenced = refl
