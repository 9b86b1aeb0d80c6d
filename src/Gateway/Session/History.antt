-- ===== src/Gateway/Session/History.antt =====
-- The life of a session (crates/api/src/gateway/session.rs) against the whole history of the events
-- dispatched to it. Event number n (from 1) has sequence n, and the buffer is the end of the
-- numbered history.
use native.Mathlib.Decide.{dec_lt}
use mathlib.Core.List.{append-nil, append_assoc}
use ldktela.Base.{
  ℕ, zero, suc, ◌+◌, ◌-◌, ◌≤◌, ◌<◌, ◌≡◌, refl, ap, [], ◌∷◌, List, ◌++◌, length, drop, arith,
  length-append,
}
use ldktela.Protocol.{DispatchEvent, DispatchFrame}
use ldktela.Gateway.Session.{Session, new, disconnect, reconnect, make_room, dispatch}

-- The events with their sequence numbers, from `first + 1`.
unfoldable pub numbered : ℕ → List DispatchEvent → List DispatchFrame
numbered first [] = []
numbered first (e ∷ es) = record { s = first + 1; event = e } ∷ numbered (first + 1) es

-- What happens to a session over its life: an event, the loss of its socket, a new socket.
pub data Call : Type 0 where
  event : DispatchEvent → Call
  drops : ℕ → Call
  attaches : ℕ → Call

unfoldable pub step : Session → Call → Session
step s (event e) = (dispatch s e).0
step s (drops now) = disconnect s now
step s (attaches outbox) = reconnect s outbox

unfoldable pub run : Session → List Call → Session
run s [] = s
run s (c ∷ cs) = run (step s c) cs

-- The events among the calls: the history of the session.
unfoldable pub events : List Call → List DispatchEvent
events [] = []
events (event e ∷ cs) = e ∷ events cs
events (drops now ∷ cs) = events cs
events (attaches outbox ∷ cs) = events cs

pub length-numbered : (n : ℕ) (es : List DispatchEvent) → length (numbered n es) ≡ length es
unfolding numbered
length-numbered n [] = refl
length-numbered n (e ∷ es) = ap suc (length-numbered (n + 1) es)

pub numbered-append :
    (n : ℕ) (es : List DispatchEvent) (e : DispatchEvent)
    → numbered n (es ++ e ∷ []) ≡ numbered n es ++ record { s = n + length es + 1; event = e } ∷ []
unfolding numbered
numbered-append n [] e = ground arith
numbered-append n (d ∷ es) e = ground (arith, numbered-append (n + 1) es e)

pub drop-append :
    (k : ℕ) (es : List DispatchEvent) (e : DispatchEvent)
    → k ≤ length es
    → drop k (es ++ e ∷ []) ≡ drop k es ++ e ∷ []
drop-append zero es e h = refl
drop-append (suc k) [] e h = absurd (omega arith)
drop-append (suc k) (d ∷ es) e h = drop-append k es e (omega arith)

pub drop-lt :
    (k : ℕ) (es : List DispatchEvent)
    → k < length es
    → (e : DispatchEvent) × (drop k es ≡ e ∷ drop (suc k) es)
drop-lt k [] h = absurd (omega arith)
drop-lt zero (d ∷ es) h = (d, refl)
drop-lt (suc k) (d ∷ es) h = drop-lt k es (omega arith)

pub length-drop : (k : ℕ) (es : List DispatchEvent) → length (drop k es) ≡ length es - k
length-drop zero es = omega arith
length-drop (suc k) [] = omega arith
length-drop (suc k) (d ∷ es) = omega (arith, length-drop k es)

-- The buffer before the next event is pushed: full, it loses its oldest frame.
pub make_room_below :
    (capacity : ℕ) (es : List DispatchEvent)
    → length es < capacity
    → make_room capacity (numbered 0 es) 0 ≡ (numbered 0 es, 0)
unfolding make_room numbered
make_room_below capacity [] h = refl
make_room_below capacity (e ∷ es) h = ground (arith, length-numbered (0 + 1) es)

pub make_room_full :
    (capacity k : ℕ) (es : List DispatchEvent)
    → 0 < capacity
    → length es ≡ capacity + k
    → make_room capacity (numbered k (drop k es)) k ≡ (numbered (suc k) (drop (suc k) es), suc k)
unfolding make_room numbered
make_room_full capacity k es h n =
    let (e, split) = drop-lt k es (omega arith) in
    rw split (ground (arith, length-numbered (k + 1) (drop (suc k) es), length-drop (suc k) es))

-- The first event that a session with this history still holds.
abbrev pub lost : ℕ → List DispatchEvent → ℕ
lost capacity es = length es - capacity

pub record Holds (capacity : ℕ) (s : Session) (es : List DispatchEvent) : Type 0 where
  pub cap_kept : s.buffer_capacity ≡ capacity
  pub counted : s.seq ≡ length es
  pub evicted : s.evicted_through ≡ lost capacity es
  pub buffered : s.buffer ≡ numbered (lost capacity es) (drop (lost capacity es) es)

pub lost_below :
    (capacity : ℕ) (es : List DispatchEvent) → length es < capacity → lost capacity es ≡ 0
lost_below capacity es h = omega arith

pub lost_below_append :
    (capacity : ℕ) (es : List DispatchEvent) (e : DispatchEvent)
    → length es < capacity
    → lost capacity (es ++ e ∷ []) ≡ 0
lost_below_append capacity es e h = omega (arith, length-append es (e ∷ []))

pub lost_full :
    (capacity : ℕ) (es : List DispatchEvent) (e : DispatchEvent)
    → capacity ≤ length es
    → lost capacity (es ++ e ∷ []) ≡ suc (lost capacity es)
lost_full capacity es e h = omega (arith, length-append es (e ∷ []))

pub make_room_lem :
    (capacity : ℕ) (es : List DispatchEvent) (e : DispatchEvent)
    → 0 < capacity
    → make_room capacity
        (numbered (lost capacity es) (drop (lost capacity es) es))
        (lost capacity es)
      ≡ (
        numbered (lost capacity (es ++ e ∷ [])) (drop (lost capacity (es ++ e ∷ [])) es),
        lost capacity (es ++ e ∷ []),
      )
make_room_lem capacity es e h = elim (dec_lt (length es) capacity) [
  | yes below ↦
      rw (lost_below capacity es below, lost_below_append capacity es e below)
        (make_room_below capacity es below)
  | no full ↦
      rw (lost_full capacity es e (omega arith))
        (make_room_full capacity (lost capacity es) es h (omega arith))
]

pub pushed :
    (capacity : ℕ) (s : Session) (es : List DispatchEvent) (e : DispatchEvent) (k : ℕ)
    → 0 < capacity
    → s.seq ≡ length es
    → k ≤ length es
    → numbered k (drop k es) ++ record { s = s.seq + 1; event = e } ∷ []
      ≡ numbered k (drop k (es ++ e ∷ []))
pushed capacity s es e k h n le =
    rw (drop-append k es e le, numbered-append k (drop k es) e) (ground (arith, length-drop k es))

pub dispatch-Holds :
    (capacity : ℕ) (s : Session) (es : List DispatchEvent) (e : DispatchEvent)
    → 0 < capacity
    → Holds capacity s es
    → Holds capacity (dispatch s e).0 (es ++ e ∷ [])
unfolding dispatch
dispatch-Holds capacity s es e h v = record {
  cap_kept = v.cap_kept;
  counted = omega (arith, v.counted, length-append es (e ∷ []));
  evicted = rw (v.cap_kept, v.evicted, v.buffered, make_room_lem capacity es e h);
  buffered =
      rw (v.cap_kept, v.evicted, v.buffered, make_room_lem capacity es e h)
        (pushed capacity s es e (lost capacity (es ++ e ∷ [])) h v.counted
          (omega (arith, length-append es (e ∷ []))));
}

pub new-Holds :
    (id user_id outbox capacity : ℕ) → Holds capacity (new id user_id outbox capacity) []
unfolding new numbered
new-Holds id user_id outbox capacity = ground arith

pub disconnect-Holds :
    (capacity : ℕ) (s : Session) (es : List DispatchEvent) (now : ℕ)
    → Holds capacity s es
    → Holds capacity (disconnect s now) es
unfolding disconnect
disconnect-Holds capacity s es now v = ground arith

pub reconnect-Holds :
    (capacity : ℕ) (s : Session) (es : List DispatchEvent) (outbox : ℕ)
    → Holds capacity s es
    → Holds capacity (reconnect s outbox) es
unfolding reconnect
reconnect-Holds capacity s es outbox v = ground arith

pub run-Holds :
    (capacity : ℕ) (s : Session) (es : List DispatchEvent) (cs : List Call)
    → 0 < capacity
    → Holds capacity s es
    → Holds capacity (run s cs) (es ++ events cs)
unfolding run events step
run-Holds capacity s es [] h v = rw append-nil v
run-Holds capacity s es (event e ∷ cs) h v =
    let rest =
      run-Holds capacity (dispatch s e).0 (es ++ e ∷ []) cs h
        (dispatch-Holds capacity s es e h v) in
    rw append_assoc at rest
run-Holds capacity s es (drops now ∷ cs) h v =
    run-Holds capacity (disconnect s now) es cs h (disconnect-Holds capacity s es now v)
run-Holds capacity s es (attaches outbox ∷ cs) h v =
    run-Holds capacity (reconnect s outbox) es cs h (reconnect-Holds capacity s es outbox v)
