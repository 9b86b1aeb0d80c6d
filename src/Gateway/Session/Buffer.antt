-- ===== src/Gateway/Session/Buffer.antt =====
-- How much a session buffers (`dispatch` of crates/api/src/gateway/session.rs).
use Prim.Native.Nat.{min}
use native.Mathlib.Nat.{zero-add}
use ldktela.Base.{
  ℕ, zero, suc, ◌+◌, ◌<◌, ◌≡◌, refl, ◌∙◌, [], ◌∷◌, List, length, drop, ◌==◌, if◌then◌else◌, arith,
  length-append,
}
use ldktela.Protocol.{DispatchEvent, DispatchFrame}
use ldktela.Gateway.Session.{Session, new, disconnect, reconnect, make_room, dispatch}
use ldktela.Gateway.Session.History.{
  Call, event, drops, attaches, step, run, events, length-numbered, length-drop, lost, new-Holds,
  run-Holds,
}

-- With capacity 0 nothing is ever dropped.
make_room_zero : (xs : List DispatchFrame) (evicted : ℕ) → (make_room 0 xs evicted).0 ≡ xs
unfolding make_room
make_room_zero [] evicted = refl
make_room_zero (x ∷ xs) evicted = ground arith

length-dispatch_zero :
    (s : Session) (e : DispatchEvent)
    → s.buffer_capacity ≡ 0
    → length (dispatch s e).0.buffer ≡ length s.buffer + 1
unfolding dispatch
length-dispatch_zero s e h =
    rw (h, make_room_zero s.buffer s.evicted_through) (length-append s.buffer _)

dispatch-capacity :
    (s : Session) (e : DispatchEvent) → (dispatch s e).0.buffer_capacity ≡ s.buffer_capacity
unfolding dispatch
dispatch-capacity s e = refl

length-run_zero :
    (s : Session) (cs : List Call)
    → s.buffer_capacity ≡ 0
    → length (run s cs).buffer ≡ length s.buffer + length (events cs)
unfolding run events step disconnect reconnect
length-run_zero s [] h = omega arith
length-run_zero s (event e ∷ cs) h = omega (
  arith,
  length-run_zero (dispatch s e).0 cs (dispatch-capacity s e ∙ h),
  length-dispatch_zero s e h,
)
length-run_zero s (drops now ∷ cs) h = length-run_zero (disconnect s now) cs h
length-run_zero s (attaches outbox ∷ cs) h = length-run_zero (reconnect s outbox) cs h

length-buffer_pos :
    (id user_id outbox capacity : ℕ) (cs : List Call)
    → 0 < capacity
    → length (run (new id user_id outbox capacity) cs).buffer ≡ min capacity (length (events cs))
length-buffer_pos id user_id outbox capacity cs h =
    let v =
      run-Holds capacity (new id user_id outbox capacity) [] cs h
        (new-Holds id user_id outbox capacity) in
    let k : ℕ = lost capacity (events cs) in
    rw v.buffered (omega (arith, length-numbered k (drop k (events cs)), length-drop k (events cs)))

-- The size of the buffer after any life of a session: the number of events, up to the capacity;
-- but with capacity 0 it is the number of events, without a bound.
pub length-buffer :
    (id user_id outbox capacity : ℕ) (cs : List Call)
    → length (run (new id user_id outbox capacity) cs).buffer
      ≡ (if capacity == 0 then length (events cs) else min capacity (length (events cs)))
unfolding new
length-buffer id user_id outbox zero cs =
    length-run_zero (new id user_id outbox 0) cs refl ∙ zero-add _
length-buffer id user_id outbox (suc n) cs =
    length-buffer_pos id user_id outbox (suc n) cs (omega arith) ∙ ground arith
