-- ===== src/Gateway/Connection.antt =====
-- crates/api/src/gateway/mod.rs: what one connection does with a client's frames.
--
-- Reading JSON, verifying a token and building READY are parameters: a frame is what the parser makes
-- of the text. A connection names its session by id; the session itself stands in the registry, or
-- nowhere once it was evicted. While a session is resumed others may dispatch to it, but it keeps its
-- place in the registry and the connection that it is resumed over. The other timers of the loop
-- `serve` are not modelled.
pub mod Version
pub mod Window
pub mod Weaving
pub mod Resuming
pub mod Handshake
mod Tests
use ldktela.Base.{
  ◌>>=◌, ℕ, ◌+◌, ◌-◌, Bool, true, false, not, Option, none, some, List, [], ◌∷◌, ◌++◌, length, leb,
  ltb, ◌==◌, if◌then◌else◌,
}
use ldktela.Base.Map.{insert}
use ldktela.Protocol.{
  Ready, DispatchEvent, ready, resumed, DispatchFrame, Frame, dispatched, heartbeat_ack,
  invalid_session,
}
use ldktela.Gateway.Session
use ldktela.Gateway.Session.{Session}
use ldktela.Gateway.Hub
use ldktela.Gateway.Hub.{Registry}
use ldktela.Gateway.Connection.Version.{ClientInfo, check_client_version}

pub data CloseCode : Type 0 where
  authentication_failed decode_error version_too_old rate_limited : CloseCode

pub record Identify : Type 0 where
  pub token : ℕ
  pub client : ClientInfo

pub record Resume : Type 0 where
  pub token : ℕ
  pub session_id : ℕ
  pub last_seq : ℕ

-- A text by its opcode; `malformed` is no envelope, and none is a payload missing or invalid.
pub data RawClientFrame : Type 0 where
  malformed heartbeat other : RawClientFrame
  identify_op : Option Identify → RawClientFrame
  resume_op : Option Resume → RawClientFrame

pub record Connection : Type 0 where
  pub session : Option ℕ
  pub window_started : ℕ
  pub frames_in_window : ℕ

abbrev pub frame_window_ms : ℕ
frame_window_ms = 60_000

abbrev pub max_frames_per_window : ℕ
max_frames_per_window = 30

unfoldable pub start_window : Connection → ℕ → Connection
start_window c now =
    if ltb frame_window_ms (now - c.window_started)
    then record c { window_started = now; frames_in_window = 0 }
    else c

unfoldable pub allow_frame : Connection → ℕ → Connection × Bool
allow_frame c now =
    let counted : ℕ = (start_window c now).frames_in_window + 1 in
    (record (start_window c now) { frames_in_window = counted }, leb counted max_frames_per_window)

-- What a call leaves: the registry, the connection's session, and the frames put on queues.
pub record Handled : Type 0 where
  pub hub : Registry
  pub session : Option ℕ
  pub sent : List (ℕ × Frame)

-- `id` is drawn for the session, `outbox` is the queue of this connection.
unfoldable pub identify : (ℕ → ℕ → Ready) → Registry → ℕ → ℕ → ℕ → Handled
identify build hub user id outbox =
    let session : Session = Hub.create_session hub.config id user outbox in
    let greeted : Session × List (ℕ × Frame) =
      Session.dispatch session (ready (build user session.id)) in
    let attached : Registry × List (ℕ × Frame) = Hub.attach hub greeted.0 in
    record { hub = attached.0; session = some id; sent = greeted.1 ++ attached.1 }

-- What other threads dispatch to a session, in order.
unfoldable pub dispatch_all : Session → List DispatchEvent → Session × List (ℕ × Frame)
dispatch_all s [] = (s, [])
dispatch_all s (e ∷ es) =
    let out : Session × List (ℕ × Frame) = Session.dispatch s e in
    let rest : Session × List (ℕ × Frame) = dispatch_all out.0 es in (rest.0, out.1 ++ rest.1)

-- `resume` holds no lock from one call on the session to the next: what others dispatch to it after
-- `replay_after` and before `reconnect`, and then before each replayed frame and after the last.
pub record Meanwhile : Type 0 where
  pub before : List DispatchEvent
  pub during : List (List DispatchEvent)

-- The events of all the gaps.
unfoldable pub joined : List (List DispatchEvent) → List DispatchEvent
joined [] = []
joined (es ∷ gaps) = es ++ joined gaps

unfoldable pub send_all :
    Session → List DispatchFrame → List (List DispatchEvent) → Session × List (ℕ × Frame)
send_all s [] gaps = dispatch_all s (joined gaps)
send_all s (f ∷ fs) [] =
    let rest : Session × List (ℕ × Frame) = send_all s fs [] in
    (rest.0, Session.send_text s (dispatched f) ++ rest.1)
send_all s (f ∷ fs) (es ∷ gaps) =
    let others : Session × List (ℕ × Frame) = dispatch_all s es in
    let rest : Session × List (ℕ × Frame) = send_all others.0 fs gaps in
    (rest.0, others.1 ++ (Session.send_text others.0 (dispatched f) ++ rest.1))

-- The session takes the new queue, replays what was missed and says so.
unfoldable pub replay :
    Registry → Session → List DispatchFrame → ℕ → List (List DispatchEvent) → Handled
replay hub session missed outbox gaps =
    let replayed : Session × List (ℕ × Frame) =
      send_all (Session.reconnect session outbox) missed gaps in
    let told : Session × List (ℕ × Frame) = Session.dispatch replayed.0 (resumed (length missed)) in
    record {
      hub = record hub { sessions = insert session.id told.0 hub.sessions };
      session = some session.id;
      sent = replayed.1 ++ told.1;
    }

-- The events that others dispatch after `replay_after` were not in the buffer that it read.
unfoldable pub continue_session : Registry → Session → List DispatchFrame → ℕ → Meanwhile → Handled
continue_session hub session missed outbox meanwhile =
    let raced : Session × List (ℕ × Frame) = dispatch_all session meanwhile.before in
    let resumption : Handled = replay hub raced.0 missed outbox meanwhile.during in
    record resumption { sent = raced.1 ++ resumption.sent }

unfoldable pub refuse : Registry → ℕ → Handled
refuse hub outbox = record {
  hub = hub;
  session = none;
  sent = (outbox, invalid_session false) ∷ [];
}

-- What others dispatch before `replay_after` is part of the session that is found, and what they
-- dispatch to a session that is refused is not looked at.
unfoldable pub resume : Registry → ℕ → Resume → ℕ → Meanwhile → Handled
resume hub user payload outbox meanwhile = elim (Hub.resumable hub payload.session_id user) [
  | none ↦ refuse hub outbox
  | some session ↦ elim (Session.replay_after session payload.last_seq) [
    | none ↦ refuse (Hub.forget hub session.id) outbox
    | some missed ↦ continue_session hub session missed outbox meanwhile
  ]
]

pub data Outcome : Type 0 where
  closes : CloseCode → Outcome
  -- Whether the frame counts as a sign of life.
  goes_on : Bool → Handled → Outcome

module _ (verify : ℕ → Option ℕ) (build : ℕ → ℕ → Ready) where
  -- `id` is what a new session would be called.
  unfoldable pub handle_identify : Registry → Option Identify → ℕ → ℕ → Outcome
  handle_identify hub none id outbox = closes decode_error
  handle_identify hub (some payload) id outbox =
      if check_client_version payload.client
      then elim (verify payload.token) [
        | none ↦ closes authentication_failed
        | some user ↦ goes_on true (identify build hub user id outbox)
      ]
      else closes version_too_old

  unfoldable pub handle_resume : Registry → Option Resume → ℕ → Meanwhile → Outcome
  handle_resume hub none outbox meanwhile = closes decode_error
  handle_resume hub (some payload) outbox meanwhile = elim (verify payload.token) [
    | none ↦ closes authentication_failed
    | some user ↦ goes_on true (resume hub user payload outbox meanwhile)
  ]

  unfoldable pub handle : Registry → Option ℕ → RawClientFrame → ℕ → ℕ → Meanwhile → Outcome
  handle hub session malformed id outbox meanwhile = closes decode_error
  handle hub session heartbeat id outbox meanwhile =
      goes_on true (record { hub = hub; session = session; sent = (outbox, heartbeat_ack) ∷ [] })
  handle hub none (identify_op payload) id outbox meanwhile = handle_identify hub payload id outbox
  handle hub (some held) (identify_op payload) id outbox meanwhile = closes decode_error
  handle hub none (resume_op payload) id outbox meanwhile =
      handle_resume hub payload outbox meanwhile
  handle hub (some held) (resume_op payload) id outbox meanwhile = closes decode_error
  handle hub session other id outbox meanwhile = closes decode_error
