-- ===== src/Gateway/Hub/Limit.antt =====
-- The limit on the connections of a user (crates/api/src/gateway/hub.rs).
use ldktela.Base.{
  ℕ, ◌≤◌, ◌≡◌, refl, ◌∙◌, not, some, inl, inr, List, [], ◌∷◌, ◌++◌, length, ◌==◌, keep_if,
  length-keep_if-le, if◌then◌else◌, Option-cases, arith,
}
use ldktela.Base.Map.{get, insert, remove, get-insert, get-remove}
use ldktela.Base.Set
use ldktela.Protocol.{DispatchEvent}
use ldktela.Gateway.Session.{Session}
use ldktela.Gateway.Hub.{
  GatewayConfig, Registry, new, owned_by, drain, attach, disown, forget, forget_all, sweep_expired,
  publish_to_users, dispatch_to,
}

drain-length : (limit : ℕ) (ids : List ℕ) → length (drain limit ids).0 ≤ limit
unfolding drain
drain-length limit [] = omega arith
drain-length limit (id ∷ ids) = ground (arith, drain-length limit ids)

pub owned-insert :
    (user j : ℕ) (ids : List ℕ) (m : List (ℕ × List ℕ))
    → owned_by (insert user ids m) j ≡ (if user == j then ids else owned_by m j)
unfolding owned_by
owned-insert user j ids m = ground (arith, get-insert user j ids m)

pub owned-remove :
    (user j : ℕ) (m : List (ℕ × List ℕ))
    → owned_by (remove user m) j ≡ (if user == j then [] else owned_by m j)
unfolding owned_by
owned-remove user j m = ground (arith, get-remove user j m)

pub owned-here :
    (user : ℕ) (owned : List ℕ) (m : List (ℕ × List ℕ))
    → get user m ≡ some owned
    → owned_by m user ≡ owned
unfolding owned_by
owned-here user owned m e = rw (e, owned_by) refl

pub disown-found :
    (user id : ℕ) (owned : List ℕ) (m : List (ℕ × List ℕ))
    → get user m ≡ some owned
    → disown m user id ≡ (
        if Set.is_empty (keep_if (λ x. not (x == id)) owned)
        then remove user m
        else insert user (keep_if (λ x. not (x == id)) owned) m)
unfolding disown
disown-found user id owned m e = rw (e, disown) refl

disown-length :
    (user id j : ℕ) (m : List (ℕ × List ℕ))
    → length (owned_by (disown m user id) j) ≤ length (owned_by m j)
unfolding disown
disown-length user id j m = elim (Option-cases (get user m)) [
  | inl e ↦ rw (e, disown) (omega arith)
  | inr (owned, e) ↦ ground (
    arith,
    disown-found user id owned m e,
    owned-here user owned m e,
    owned-remove user j m,
    owned-insert user j (keep_if (λ x. not (x == id)) owned) m,
    length-keep_if-le (λ x. not (x == id)) owned,
  )
]

-- No user has more ids than the configured connections.
Limited : Registry → Type 0
Limited r = (user : ℕ) → length (owned_by r.by_user user) ≤ r.config.max_connections_per_user

attach-Limited : (r : Registry) (s : Session) → Limited r → Limited (attach r s).0
unfolding attach Limited
attach-Limited r s v user = ground (
  arith,
  owned-insert s.user_id user
      (drain r.config.max_connections_per_user (owned_by r.by_user s.user_id ++ s.id ∷ [])).0
      r.by_user,
  drain-length r.config.max_connections_per_user (owned_by r.by_user s.user_id ++ s.id ∷ []),
  v user,
)

forget-Limited : (r : Registry) (id : ℕ) → Limited r → Limited (forget r id)
unfolding forget Limited
forget-Limited r id v = elim (Option-cases (get id r.sessions)) [
  | inl e ↦ rw (e, forget) v
  | inr (s, e) ↦
      rw (e, forget) (λ user. omega (arith, disown-length s.user_id id user r.by_user, v user))
]

forget_all-Limited : (r : Registry) (ids : List ℕ) → Limited r → Limited (forget_all r ids)
unfolding forget_all
forget_all-Limited r [] v = v
forget_all-Limited r (id ∷ ids) v = forget_all-Limited (forget r id) ids (forget-Limited r id v)

publish-Limited :
    (r : Registry) (users : List ℕ) (e : DispatchEvent)
    → Limited r
    → Limited (publish_to_users r users e).0
unfolding publish_to_users Limited
publish-Limited r [] e v = v
publish-Limited r (user ∷ users) e v =
    publish-Limited (record r { sessions = (dispatch_to r.sessions (owned_by r.by_user user) e).0 })
      users e v

-- What the connections and the handlers call.
pub data Call : Type 0 where
  attaches : Session → Call
  forgets : ℕ → Call
  sweeps : ℕ → Call
  publishes : List ℕ → DispatchEvent → Call

unfoldable pub step : Registry → Call → Registry
step r (attaches s) = (attach r s).0
step r (forgets id) = forget r id
step r (sweeps now) = sweep_expired r now
step r (publishes users e) = (publish_to_users r users e).0

unfoldable pub run : Registry → List Call → Registry
run r [] = r
run r (c ∷ cs) = run (step r c) cs

step-Limited : (r : Registry) (c : Call) → Limited r → Limited (step r c)
unfolding step sweep_expired
step-Limited r (attaches s) v = attach-Limited r s v
step-Limited r (forgets id) v = forget-Limited r id v
step-Limited r (sweeps now) v = forget_all-Limited r _ v
step-Limited r (publishes users e) v = publish-Limited r users e v

run-Limited : (r : Registry) (cs : List Call) → Limited r → Limited (run r cs)
unfolding run
run-Limited r [] v = v
run-Limited r (c ∷ cs) v = run-Limited (step r c) cs (step-Limited r c v)

forget-config : (r : Registry) (id : ℕ) → (forget r id).config ≡ r.config
unfolding forget
forget-config r id = ground arith

forget_all-config : (r : Registry) (ids : List ℕ) → (forget_all r ids).config ≡ r.config
unfolding forget_all
forget_all-config r [] = refl
forget_all-config r (id ∷ ids) = forget_all-config (forget r id) ids ∙ forget-config r id

publish-config :
    (r : Registry) (users : List ℕ) (e : DispatchEvent)
    → (publish_to_users r users e).0.config ≡ r.config
unfolding publish_to_users
publish-config r [] e = refl
publish-config r (user ∷ users) e =
    publish-config (record r { sessions = (dispatch_to r.sessions (owned_by r.by_user user) e).0 })
      users e

pub step-config : (r : Registry) (c : Call) → (step r c).config ≡ r.config
unfolding step sweep_expired attach
step-config r (attaches s) = refl
step-config r (forgets id) = forget-config r id
step-config r (sweeps now) = forget_all-config r _
step-config r (publishes users e) = publish-config r users e

pub run-config : (r : Registry) (cs : List Call) → (run r cs).config ≡ r.config
unfolding run
run-config r [] = refl
run-config r (c ∷ cs) = run-config (step r c) cs ∙ step-config r c

-- After any sequence of connections, departures, sweeps and published events, no user owns more
-- sessions than the configured number of connections.
pub length-owned_by-run :
    (config : GatewayConfig) (cs : List Call) (user : ℕ)
    → length (owned_by (run (new config) cs).by_user user) ≤ config.max_connections_per_user
unfolding Limited new owned_by get
length-owned_by-run config cs user =
    ground (arith, run-Limited (new config) cs (λ u. omega arith) user, run-config (new config) cs)
