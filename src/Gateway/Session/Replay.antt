-- ===== src/Gateway/Session/Replay.antt =====
-- What a client that resumes gets back (`replay_after` of crates/api/src/gateway/session.rs).
use native.Mathlib.Nat.{add-zero, zero-add, suc-add}
use ldktela.Base.{
  ℕ, zero, suc, ◌+◌, ◌-◌, ◌≤◌, ◌<◌, ◌≡◌, refl, sym, ap, ◌∙◌, some, none, [], ◌∷◌, List, length,
  drop, ltb, leb, keep_if, if◌then◌else◌, ◌&&◌, arith,
}
use ldktela.Protocol.{DispatchEvent}
use ldktela.Gateway.Session.{Session, new, replay_after}
use ldktela.Gateway.Session.History.{numbered, Call, run, events, lost, Holds, new-Holds, run-Holds}

-- Frames after `last`, among frames numbered from a number not above it.
keep_all :
    (k last : ℕ) (es : List DispatchEvent)
    → last ≤ k
    → keep_if (λ f. ltb last f.s) (numbered k es) ≡ numbered k es
unfolding numbered
keep_all k last [] h = refl
keep_all k last (e ∷ es) h = ground (arith, keep_all (k + 1) last es (omega arith))

keep_after :
    (k d last : ℕ) (es : List DispatchEvent)
    → last ≡ k + d
    → keep_if (λ f. ltb last f.s) (numbered k es) ≡ numbered last (drop d es)
unfolding numbered
keep_after k zero last es h = rw (h, add-zero) (keep_all k k es (omega arith))
keep_after k (suc d) last [] h = refl
keep_after k (suc d) last (e ∷ es) h = ground (arith, keep_after (k + 1) d last es (omega arith))

drop-nil : (k : ℕ) → drop {A = DispatchEvent} k [] ≡ []
drop-nil zero = refl
drop-nil (suc k) = refl

drop-drop : (k d : ℕ) (es : List DispatchEvent) → drop d (drop k es) ≡ drop (k + d) es
drop-drop zero d es = rw zero-add
drop-drop (suc k) d [] = drop-nil d ∙ sym (drop-nil (suc k + d))
drop-drop (suc k) d (e ∷ es) = rw suc-add (drop-drop k d es)

-- The frames of the buffer after `last`, where nothing after `last` was evicted.
buffered_after :
    (k last : ℕ) (es : List DispatchEvent)
    → k ≤ last
    → keep_if (λ f. ltb last f.s) (numbered k (drop k es)) ≡ numbered last (drop last es)
buffered_after k last es h =
    let split : last ≡ k + (last - k) = omega arith in
    keep_after k (last - k) last (drop k es) split
    ∙ ap (numbered last) (drop-drop k (last - k) es ∙ ap (λ n. drop n es) (sym split))

replay_after-Holds :
    (capacity last : ℕ) (s : Session) (es : List DispatchEvent)
    → Holds capacity s es
    → replay_after s last ≡ (
        if leb last (length es) && leb (length es) (last + capacity)
        then some (numbered last (drop last es))
        else none)
unfolding replay_after
replay_after-Holds capacity last s es v =
    rw (v.counted, v.evicted, v.buffered)
      (ground (arith, buffered_after (lost capacity es) last es))

-- A client that saw the events up to `last` gets back exactly the events after it, in order and
-- under their own numbers, whatever sockets the session lost and gained meanwhile; it is refused
-- exactly if it claims more than was sent or if an event after `last` is no longer among the last
-- `capacity` ones. The capacity is not 0.
pub replay_after-run :
    (id user_id outbox capacity last : ℕ) (cs : List Call)
    → 0 < capacity
    → replay_after (run (new id user_id outbox capacity) cs) last ≡ (
        if leb last (length (events cs)) && leb (length (events cs)) (last + capacity)
        then some (numbered last (drop last (events cs)))
        else none)
replay_after-run id user_id outbox capacity last cs h =
    replay_after-Holds capacity last (run (new id user_id outbox capacity) cs) (events cs) (
      run-Holds capacity (new id user_id outbox capacity) [] cs h
        (new-Holds id user_id outbox capacity))
