-- ===== src/Gateway/Hub/Registered.antt =====
-- The sessions that are registered and resumable, against the ids that the hub counts by user
-- (crates/api/src/gateway/hub.rs).
use mathlib.Core.Path.{subst}
use mathlib.Core.Option.{some-injective}
use ldktela.Base.{
  ℕ, ◌≤◌, ◌<◌, ◌≡◌, refl, ap, ◌∙◌, true, some, inl, inr, List, [], ◌∷◌, length, ◌==◌, Bool-cases,
  Option-cases, arith,
}
use ldktela.Base.Map.{get, insert, get-insert, Distinct, insert-Distinct}
use ldktela.Base.Set
use ldktela.Base.Set.{contains-remove}
use ldktela.Protocol.{DispatchEvent}
use ldktela.Gateway.Session
use ldktela.Gateway.Session.{Session}
use ldktela.Gateway.Hub.{
  GatewayConfig, Registry, new, owned_by, sweep_expired, publish_to_users, dispatch_to,
}
use ldktela.Gateway.Hub.Limit.{
  Call, attaches, forgets, sweeps, publishes, step, run, step-config, length-owned_by-run,
}
use ldktela.Gateway.Hub.Counting.{sessions_of, length-sessions_of}
use ldktela.Gateway.Hub.Agreement.{
  Agreed, new-Agreed, attach-Agreed, forget_all-Agreed, forget-Agreed,
}

dispatch-user : (x : Session) (e : DispatchEvent) → x.user_id ≡ (Session.dispatch x e).0.user_id
unfolding Session.dispatch
dispatch-user x e = refl

-- A dispatch leaves every session registered under its id, with its user.
dispatch_to-user :
    (m : List (ℕ × Session)) (ids : List ℕ) (e : DispatchEvent) (k : ℕ) (s : Session)
    → get k (dispatch_to m ids e).0 ≡ some s
    → (t : Session) × ((get k m ≡ some t) × (t.user_id ≡ s.user_id))
unfolding dispatch_to
dispatch_to-user m [] e k s found = (s, (found, refl))
dispatch_to-user m (id ∷ ids) e k s found = elim (Option-cases (get id m)) [
  | inl none_here ↦ dispatch_to-user m ids e k s (rw (dispatch_to, none_here) at found)
  | inr (session, here) ↦
      let later =
        dispatch_to-user (insert id (Session.dispatch session e).0 m) ids e k s
          (rw (dispatch_to, here) at found) in
      let put = get-insert id k (Session.dispatch session e).0 m in
      elim (Bool-cases (id == k)) [
        | inl same ↦
            let told : (Session.dispatch session e).0 ≡ later.0 =
              some-injective (Session.dispatch session e).0 later.0
                (ground (arith, put, later.1.0)) in
            let key : id ≡ k = ground arith in
            (
              session,
              (
                subst (λ (i : ℕ). get i m ≡ some session) key here,
                dispatch-user session e ∙ ap (λ (x : Session). x.user_id) told ∙ later.1.1,
              ),
            )
        | inr other ↦ (later.0, (ground (arith, put, later.1.0), later.1.1))
      ]
]

dispatch_to-Distinct :
    (m : List (ℕ × Session)) (ids : List ℕ) (e : DispatchEvent)
    → Distinct m
    → Distinct (dispatch_to m ids e).0
unfolding dispatch_to
dispatch_to-Distinct m [] e d = d
dispatch_to-Distinct m (id ∷ ids) e d = elim (Option-cases (get id m)) [
  | inl none_here ↦ rw (dispatch_to, none_here) (dispatch_to-Distinct m ids e d)
  | inr (session, here) ↦
      rw (dispatch_to, here)
        (dispatch_to-Distinct (insert id (Session.dispatch session e).0 m) ids e
          (insert-Distinct id (Session.dispatch session e).0 m d))
]

publish-Agreed :
    (r : Registry) (users : List ℕ) (e : DispatchEvent)
    → Agreed r
    → Agreed (publish_to_users r users e).0
unfolding publish_to_users
publish-Agreed r [] e v = v
publish-Agreed r (user ∷ users) e v =
    publish-Agreed (record r { sessions = (dispatch_to r.sessions (owned_by r.by_user user) e).0 })
      users e
      (record {
        distinct = dispatch_to-Distinct r.sessions (owned_by r.by_user user) e v.distinct;
        counted = λ k s found.
            let (t, was) = dispatch_to-user r.sessions (owned_by r.by_user user) e k s found in
            subst (λ (u : ℕ). Set.contains k (owned_by r.by_user u) ≡ true) was.1
              (v.counted k t was.0);
      })

step-Agreed :
    (r : Registry) (c : Call) → 0 < r.config.max_connections_per_user → Agreed r → Agreed (step r c)
unfolding step sweep_expired
step-Agreed r (attaches s) room v = attach-Agreed r s room v
step-Agreed r (forgets id) room v = forget-Agreed r id v
step-Agreed r (sweeps now) room v = forget_all-Agreed r _ v
step-Agreed r (publishes users e) room v = publish-Agreed r users e v

run-Agreed :
    (r : Registry) (cs : List Call)
    → 0 < r.config.max_connections_per_user
    → Agreed r
    → Agreed (run r cs)
unfolding run
run-Agreed r [] room v = v
run-Agreed r (c ∷ cs) room v =
    run-Agreed (step r c) cs (rw (step-config r c) room) (step-Agreed r c room v)

-- After any sequence of connections, departures, sweeps and published events, no user has more
-- sessions registered than the configured number of connections. That number is not 0.
pub length-sessions_of-run :
    (config : GatewayConfig) (cs : List Call) (user : ℕ)
    → 0 < config.max_connections_per_user
    → length (sessions_of user (run (new config) cs).sessions) ≤ config.max_connections_per_user
unfolding new
length-sessions_of-run config cs user room =
    let v = run-Agreed (new config) cs room (new-Agreed config) in
    let r : Registry = run (new config) cs in
    let owned =
      length-sessions_of user r.sessions (owned_by r.by_user user) v.distinct (λ k s found mine.
        let its : s.user_id ≡ user = ground arith in
        subst (λ (u : ℕ). Set.contains k (owned_by r.by_user u) ≡ true) its
          (v.counted k s found)) in
    omega (arith, owned, length-owned_by-run config cs user)
