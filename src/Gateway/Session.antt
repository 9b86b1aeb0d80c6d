-- ===== src/Gateway/Session.antt =====
-- crates/api/src/gateway/session.rs: one gateway session.
--
-- A method that changes the session returns the new one. What it puts on the queue of a socket is
-- returned beside it, as the list of frames in order; a socket is the number of its connection.
-- Each method is one step, although `dispatch` takes the counter, the buffer and the queue one after
-- another and `replay_after` reads the counter, the mark of eviction and the buffer so: two dispatches at
-- once, which may reach the buffer or the queue in the other order, are not modelled.
-- The sequence counter is an AtomicU64, taken as a number: it would wrap after 2^64 dispatches.
-- Frames always serialise, so the branch of `send_frame` that logs a failure is left out.
pub mod History
pub mod Replay
pub mod Buffer
mod Tests
use ldktela.Base.{
  ℕ, ◌+◌, Bool, true, false, Option, none, some, List, [], ◌∷◌, ◌++◌, length, ltb, ◌==◌, keep_if,
  if◌then◌else◌,
}
use ldktela.Protocol.{DispatchEvent, DispatchFrame, Frame, dispatched}

pub record Session : Type 0 where
  pub id : ℕ
  pub user_id : ℕ
  pub seq : ℕ
  pub buffer : List DispatchFrame
  pub buffer_capacity : ℕ
  pub evicted_through : ℕ
  pub outbox : Option ℕ
  pub connected : Bool
  pub disconnected_at : Option ℕ

unfoldable pub new : ℕ → ℕ → ℕ → ℕ → Session
new id user_id outbox buffer_capacity = record {
  id = id;
  user_id = user_id;
  seq = 0;
  buffer = [];
  buffer_capacity = buffer_capacity;
  evicted_through = 0;
  outbox = some outbox;
  connected = true;
  disconnected_at = none;
}

-- Marks the socket gone at `now`.
unfoldable pub disconnect : Session → ℕ → Session
disconnect s now = record s { connected = false; outbox = none; disconnected_at = some now }

-- Attaches a new socket.
unfoldable pub reconnect : Session → ℕ → Session
reconnect s outbox = record s { outbox = some outbox; disconnected_at = none; connected = true }

-- What reaches the socket, if one is attached.
unfoldable pub send_text : Session → Frame → List (ℕ × Frame)
send_text s f = elim s.outbox [ none ↦ [] | some tx ↦ (tx, f) ∷ [] ]

-- `pop_front` on a full buffer, with the sequence that it drops.
unfoldable pub make_room : ℕ → List DispatchFrame → ℕ → List DispatchFrame × ℕ
make_room capacity [] evicted = ([], evicted)
make_room capacity (oldest ∷ rest) evicted =
    if length (oldest ∷ rest) == capacity then (rest, oldest.s) else (oldest ∷ rest, evicted)

unfoldable pub dispatch : Session → DispatchEvent → Session × List (ℕ × Frame)
unfolding make_room send_text
dispatch s event =
    let seq : ℕ = s.seq + 1 in
    let frame : DispatchFrame = record { s = seq; event = event } in
    let room : List DispatchFrame × ℕ = make_room s.buffer_capacity s.buffer s.evicted_through in
    let s' : Session = record s {
      seq = seq;
      buffer = room.0 ++ frame ∷ [];
      evicted_through = room.1;
    } in
    (s', send_text s' (dispatched frame))

-- Frames after `last_seq`, or `none` where the gap cannot be replayed.
unfoldable pub replay_after : Session → ℕ → Option (List DispatchFrame)
replay_after s last_seq =
    if ltb s.seq last_seq
    then none
    else if ltb last_seq s.evicted_through
    then none
    else some (keep_if (λ f. ltb last_seq f.s) s.buffer)
