-- ===== src/Gateway/Connection/Handshake.antt =====
-- Resuming a session over a new connection: `resume` of crates/api/src/gateway/mod.rs with the session
-- and the hub.
use ldktela.Base.{
  ℕ, ◌+◌, ◌≤◌, ◌<◌, ◌≡◌, refl, sym, ap, ◌∙◌, Bool, true, false, ◌&&◌, none, some, List, [], ◌∷◌,
  ◌++◌, map, length, drop, leb, ◌==◌, keep_if, all, Bool-cases, inl, inr, arith,
}
use ldktela.Base.Map.{get}
use ldktela.Protocol.{DispatchEvent, resumed, DispatchFrame, invalid_session}
use ldktela.Gateway.Session
use ldktela.Gateway.Session.{Session}
use ldktela.Gateway.Session.History.{
  Call, event, attaches, step, run, events, numbered, length-numbered, length-drop, run-Holds,
  new-Holds,
}
use ldktela.Gateway.Session.Replay.{replay_after-run}
use ldktela.Gateway.Hub.{Registry, if_owner, resumable, forget}
use ldktela.Gateway.Connection.{
  Handled, Meanwhile, dispatch_all, joined, send_all, replay, continue_session, refuse, resume,
}
use ldktela.Gateway.Connection.Weaving.{
  to_queue, run-append, dispatch_all-run, woven, send_all-run, is_old, is_new, woven_old, woven_new,
  numbered-old,
}
use ldktela.Gateway.Connection.Resuming.{
  run-owner, get-insert_same, resumable-forget, numbered_marker, continue_session-sent,
}

module _ (id user outbox capacity : ℕ) (cs : List Call) (last queue token : ℕ) (hub : Registry)
    (m : Meanwhile) where
  -- The session after the calls of its life so far.
  abbrev pub lived : List Call → Session
  lived calls = run (Session.new id user outbox capacity) calls

  -- What the new connection says after the replay.
  abbrev pub marker : DispatchEvent
  marker = resumed (length (drop last (events cs)))

  -- The number of the last event before `reconnect`.
  abbrev pub passed : ℕ
  passed = length (events cs) + length m.before

  abbrev pub resumption : Handled
  resumption = resume hub user (record { token = token; session_id = id; last_seq = last }) queue m

  -- What the session goes through until it is resumed.
  abbrev pub calls_meanwhile : List Call
  calls_meanwhile =
      map event m.before ++ attaches queue ∷ (map event (joined m.during) ++ event marker ∷ [])

  -- What the new queue gets: the frames, of which the old ones and the new ones are as they should be,
  -- and then the marker.
  abbrev pub Delivered : List DispatchFrame → Type 0
  Delivered frames =
      (resumption.sent
        ≡ (dispatch_all (lived cs) m.before).1
          ++ map (to_queue queue)
              (frames ++ numbered_marker (passed + length (joined m.during)) marker ∷ []))
      × (keep_if (is_old (length (events cs))) frames ≡ numbered last (drop last (events cs)))
      × (keep_if (is_new (length (events cs))) frames ≡ numbered passed (joined m.during))

  -- Whether everything after `last` was sent once and is still kept.
  abbrev pub Resumed : Bool → Type 0
  Resumed true =
      ((frames : List DispatchFrame) × Delivered frames)
      × (resumption.session ≡ some id)
      × (get id resumption.hub.sessions ≡ some (lived (cs ++ calls_meanwhile)))
  Resumed false =
      (resumption.sent ≡ (queue, invalid_session false) ∷ [])
      × (resumption.session ≡ none)
      × (resumable resumption.hub id user ≡ none)

  lived_owner : ((lived cs).id ≡ id) × ((lived cs).user_id ≡ user)
  unfolding Session.new
  lived_owner = run-owner (Session.new id user outbox capacity) cs

  found_again : get id hub.sessions ≡ some (lived cs) → resumable hub id user ≡ some (lived cs)
  unfolding resumable if_owner
  found_again found =
      let mine : ((lived cs).user_id == user) ≡ true = rw lived_owner.1 (ground arith) in
      rw (found, if_owner, mine) refl

  counted : 0 < capacity → (lived cs).seq ≡ length (events cs)
  counted h =
      (run-Holds capacity (Session.new id user outbox capacity) [] cs h
        (new-Holds id user outbox capacity)).counted

  resumption_kept :
      get id hub.sessions ≡ some (lived cs)
      → Session.replay_after (lived cs) last ≡ some (numbered last (drop last (events cs)))
      → resumption ≡ continue_session hub (lived cs) (numbered last (drop last (events cs))) queue m
  unfolding resume
  resumption_kept found again = rw (resume, found_again found, again) refl

  resumption_lost :
      get id hub.sessions ≡ some (lived cs)
      → Session.replay_after (lived cs) last ≡ none
      → resumption ≡ refuse (forget hub id) queue
  unfolding resume
  resumption_lost found again =
      rw (resume, found_again found, again)
        (ap (λ (i : ℕ). refuse (forget hub i) queue) lived_owner.0)

  raced_id : (dispatch_all (lived cs) m.before).0.id ≡ id
  raced_id =
      ap (λ (s : Session). s.id) (dispatch_all-run (lived cs) m.before)
      ∙ (run-owner (lived cs) (map event m.before)).0
      ∙ lived_owner.0

  -- The session that is put back has gone through the dispatches of others, the new queue and the marker.
  put_back :
      let raced : Session = (dispatch_all (lived cs) m.before).0 in
      let missed = numbered last (drop last (events cs)) in
      (Session.dispatch
        (send_all (Session.reconnect raced queue) missed m.during).0
        (resumed (length missed))).0
      ≡ lived (cs ++ calls_meanwhile)
  unfolding run step
  put_back =
      let back : Session = Session.reconnect (dispatch_all (lived cs) m.before).0 queue in
      let missed : List DispatchFrame = numbered last (drop last (events cs)) in
      let others : List Call = map event (joined m.during) in
      let rest : List Call = others ++ event marker ∷ [] in
      ap (λ s. (Session.dispatch s (resumed (length missed))).0) (send_all-run back missed m.during)
      ∙ ap (λ k. (Session.dispatch (run back others) (resumed k)).0)
          (length-numbered last (drop last (events cs)))
      ∙ sym (run-append back others (event marker ∷ []))
      ∙ ap (λ s. run (Session.reconnect s queue) rest) (dispatch_all-run (lived cs) m.before)
      ∙ sym (run-append (lived cs) (map event m.before) (attaches queue ∷ rest))
      ∙ sym (run-append (Session.new id user outbox capacity) cs calls_meanwhile)

  stored :
      get id
        (continue_session hub
          (lived cs)
          (numbered last (drop last (events cs)))
          queue
          m).hub.sessions
      ≡ some (lived (cs ++ calls_meanwhile))
  unfolding continue_session replay
  stored = rw (raced_id, put_back) (get-insert_same id (lived (cs ++ calls_meanwhile)) hub.sessions)

  delivered :
      0 < capacity
      → get id hub.sessions ≡ some (lived cs)
      → Session.replay_after (lived cs) last ≡ some (numbered last (drop last (events cs)))
      → last ≤ length (events cs)
      → Delivered (woven passed (numbered last (drop last (events cs))) m.during)
  delivered h found again le =
      let n : ℕ = length (events cs) in
      let missed : List DispatchFrame = numbered last (drop last (events cs)) in
      let old : all (is_old n) missed ≡ true =
        numbered-old n last (drop last (events cs)) (omega (arith, length-drop last (events cs))) in
      (
        ap (λ (x : Handled). x.sent) (resumption_kept found again)
            ∙ continue_session-sent hub (lived cs) (events cs) last queue m (counted h),
        woven_old n passed missed m.during (omega arith) old,
        woven_new n passed missed m.during (omega arith) old,
      )

  -- A user resumes their session, which is registered, saying that they saw the events up to `last`. The
  -- new queue gets each later event of the history that `replay_after` found, once, in order and under the
  -- number that it had; among them, once and in order, what others dispatch after `reconnect`; and last
  -- the marker. What others dispatch between `replay_after` and `reconnect` takes the numbers in
  -- between, and only goes to the session's old queue, if there is one, before all this. The session
  -- lives on with all of it in its history. If an event after `last` is no longer kept, or the user
  -- claims more than was sent, the session is said to be invalid and is gone from the registry. The
  -- capacity is not 0.
  pub resume-Resumed :
      0 < capacity
      → get id hub.sessions ≡ some (lived cs)
      → Resumed (leb last (length (events cs)) && leb (length (events cs)) (last + capacity))
  unfolding continue_session replay refuse
  resume-Resumed h found =
      let missed : List DispatchFrame = numbered last (drop last (events cs)) in
      elim (Bool-cases
        (leb last (length (events cs)) && leb (length (events cs)) (last + capacity))) [
          | inl e ↦
              let again : Session.replay_after (lived cs) last ≡ some missed =
                rw e at (replay_after-run id user outbox capacity last cs h) in
              let kept = resumption_kept found again in
              rw e (
                (woven passed missed m.during, delivered h found again (ground arith)),
                ap (λ (x : Handled). x.session) kept ∙ ap some raced_id,
                ap (λ (x : Handled). get id x.hub.sessions) kept ∙ stored,
              )
          | inr e ↦
              let again : Session.replay_after (lived cs) last ≡ none =
                rw e at (replay_after-run id user outbox capacity last cs h) in
              rw (e, resumption_lost found again) (refl, refl, resumable-forget hub id user)
        ]
