-- ===== src/Gateway/Connection/Resuming.antt =====
-- What `resume` of crates/api/src/gateway/mod.rs sends and keeps, for a session as it is found.
use ldktela.Base.{
  ℕ, ◌+◌, ◌≡◌, refl, sym, ap, ◌∙◌, none, some, List, [], ◌∷◌, ◌++◌, map, length, drop, Option-cases,
  inl, inr, arith,
}
use ldktela.Base.Map.{get, insert, remove, get-insert, get-remove}
use ldktela.Protocol.{DispatchEvent, resumed, DispatchFrame, Frame, dispatched}
use ldktela.Gateway.Session
use ldktela.Gateway.Session.{Session}
use ldktela.Gateway.Session.History.{
  Call, event, drops, attaches, step, run, numbered, length-numbered,
}
use ldktela.Gateway.Hub.{Registry, if_owner, resumable, forget}
use ldktela.Gateway.Connection.{Meanwhile, dispatch_all, joined, send_all, replay, continue_session}
use ldktela.Gateway.Connection.Weaving.{
  to_queue, map-append, dispatch_all-seq, send_text-queue, woven, send_all-sent, send_all-seq,
  send_all-outbox,
}

step-owner : (s : Session) (c : Call) → ((step s c).id ≡ s.id) × ((step s c).user_id ≡ s.user_id)
unfolding step Session.dispatch Session.disconnect Session.reconnect
step-owner s (event e) = (refl, refl)
step-owner s (drops now) = (refl, refl)
step-owner s (attaches outbox) = (refl, refl)

pub run-owner :
    (s : Session) (cs : List Call) → ((run s cs).id ≡ s.id) × ((run s cs).user_id ≡ s.user_id)
unfolding run
run-owner s [] = (refl, refl)
run-owner s (c ∷ cs) =
    let (id, user) = run-owner (step s c) cs in
    let (id_step, user_step) = step-owner s c in (id ∙ id_step, user ∙ user_step)

get-remove_same : (id : ℕ) (m : List (ℕ × Session)) → get id (remove id m) ≡ none
get-remove_same id m = ground (arith, get-remove id id m)

pub get-insert_same :
    (id : ℕ) (s : Session) (m : List (ℕ × Session)) → get id (insert id s m) ≡ some s
get-insert_same id s m = ground (arith, get-insert id id s m)

pub resumable-forget : (hub : Registry) (id user : ℕ) → resumable (forget hub id) id user ≡ none
unfolding resumable forget if_owner
resumable-forget hub id user = elim (Option-cases (get id hub.sessions)) [
  | inl e ↦ rw (forget, e) (rw e refl)
  | inr (s, e) ↦ rw (forget, e) (ap (if_owner user) (get-remove_same id hub.sessions))
]

-- The frame that says how much was replayed.
abbrev pub numbered_marker : ℕ → DispatchEvent → DispatchFrame
numbered_marker n told = record { s = n + 1; event = told }

-- What is sent where the history `es` was missed after `last`.
pub continue_session-sent :
    (hub : Registry) (s : Session) (es : List DispatchEvent) (last queue : ℕ) (m : Meanwhile)
    → s.seq ≡ length es
    → (continue_session hub s (numbered last (drop last es)) queue m).sent
      ≡ (dispatch_all s m.before).1
        ++ map (to_queue queue) (
            woven (length es + length m.before) (numbered last (drop last es)) m.during
            ++ numbered_marker
                (length es + length m.before + length (joined m.during))
                (resumed (length (drop last es)))
              ∷ [])
unfolding continue_session replay Session.dispatch Session.reconnect
continue_session-sent hub s es last queue m counted =
    let missed : List DispatchFrame = numbered last (drop last es) in
    let raced : Session = (dispatch_all s m.before).0 in
    let back : Session = Session.reconnect raced queue in
    let replayed : Session = (send_all back missed m.during).0 in
    let told : Session × List (ℕ × Frame) = Session.dispatch replayed (resumed (length missed)) in
    let before_seq = dispatch_all-seq s m.before in
    let started : ◌≡◌ {A = ℕ} back.seq (length es + length m.before) =
      omega (arith, before_seq, counted) in
    let ended : ◌≡◌ {A = ℕ} replayed.seq (length es + length m.before + length (joined m.during)) =
      omega (arith, send_all-seq back missed m.during, before_seq, counted) in
    let frame : DispatchFrame =
      numbered_marker (length es + length m.before + length (joined m.during))
        (resumed (length (drop last es))) in
    let same_frame : numbered_marker replayed.seq (resumed (length missed)) ≡ frame =
      ap (λ (k : ℕ). numbered_marker k (resumed (length missed))) ended
      ∙ ap
          (λ (k : ℕ).
            numbered_marker (length es + length m.before + length (joined m.during)) (resumed k))
          (length-numbered last (drop last es)) in
    let frames = woven (length es + length m.before) missed m.during in
    let replay_sent : (send_all back missed m.during).1 ≡ map (to_queue queue) frames =
      send_all-sent back missed m.during queue refl
      ∙ ap (λ (k : ℕ). map (to_queue queue) (woven k missed m.during)) started in
    let told_sent : told.1 ≡ map (to_queue queue) (frame ∷ []) =
      send_text-queue told.0 (dispatched (numbered_marker replayed.seq (resumed (length missed))))
        queue (send_all-outbox back missed m.during)
      ∙ ap (λ (f : DispatchFrame). to_queue queue f ∷ []) same_frame in
    ap (λ r. (dispatch_all s m.before).1 ++ r)
      (ap (λ r. r ++ told.1) replay_sent
        ∙ ap (λ r. map (to_queue queue) frames ++ r) told_sent
        ∙ sym (map-append (to_queue queue) frames (frame ∷ [])))
