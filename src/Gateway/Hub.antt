-- ===== src/Gateway/Hub.antt =====
-- crates/api/src/gateway/hub.rs: the registry of sessions.
--
-- The lock makes every method atomic: a method that writes returns the new registry. What it puts on
-- queues is returned as a list of frames in order, each with its connection. A session that leaves
-- the registry is dropped from the model; the connection that still holds it is not modelled.
pub mod Limit
pub mod Counting
pub mod Agreement
pub mod Registered
pub mod Eviction
mod Tests
use ldktela.Base.{
  ℕ, zero, suc, ◌+◌, ◌-◌, Bool, true, false, not, ◌&&◌, Option, none, some, List, [], ◌∷◌, ◌++◌,
  length, drop, leb, ltb, ◌==◌, any, keep_if, if◌then◌else◌,
}
use ldktela.Base.Map.{get, insert, remove, values}
use ldktela.Base.Set
use ldktela.Protocol.{DispatchEvent, Frame, reconnect}
use ldktela.Gateway.Session
use ldktela.Gateway.Session.{Session}

pub record GatewayConfig : Type 0 where
  pub session_ttl_ms : ℕ
  pub resume_buffer_size : ℕ
  pub max_connections_per_user : ℕ

pub record Registry : Type 0 where
  pub config : GatewayConfig
  pub sessions : List (ℕ × Session)
  pub by_user : List (ℕ × List ℕ)

unfoldable pub new : GatewayConfig → Registry
new config = record { config = config; sessions = []; by_user = [] }

unfoldable pub create_session : GatewayConfig → ℕ → ℕ → ℕ → Session
create_session config id user outbox = Session.new id user outbox config.resume_buffer_size

-- `entry(..).or_default()`
unfoldable pub owned_by : List (ℕ × List ℕ) → ℕ → List ℕ
owned_by by_user user = elim (get user by_user) [ none ↦ [] | some ids ↦ ids ]

-- The loop that drains the oldest ids: what is left, and what was evicted, in order.
unfoldable pub drain : ℕ → List ℕ → List ℕ × List ℕ
drain limit [] = ([], [])
drain limit (id ∷ ids) =
    let rest : List ℕ × List ℕ = drain limit ids in
    if ltb limit (length (id ∷ ids)) then (rest.0, id ∷ rest.1) else (id ∷ ids, [])

-- Every evicted session is told to reconnect, and goes.
unfoldable pub drop_sessions : List (ℕ × Session) → List ℕ → List (ℕ × Session) × List (ℕ × Frame)
drop_sessions sessions [] = (sessions, [])
drop_sessions sessions (oldest ∷ ids) =
    let rest : List (ℕ × Session) × List (ℕ × Frame) = drop_sessions (remove oldest sessions) ids in
    elim (get oldest sessions) [
      | none ↦ rest
      | some dropped ↦ (rest.0, Session.send_text dropped reconnect ++ rest.1)
    ]

unfoldable pub attach : Registry → Session → Registry × List (ℕ × Frame)
attach r session =
    let drained : List ℕ × List ℕ =
      drain r.config.max_connections_per_user
        (owned_by r.by_user session.user_id ++ session.id ∷ []) in
    let dropped : List (ℕ × Session) × List (ℕ × Frame) = drop_sessions r.sessions drained.1 in
    (
      record r {
        by_user = insert session.user_id drained.0 r.by_user;
        sessions = insert session.id session dropped.0;
      },
      dropped.1,
    )

-- `then_some` on a session that is there.
unfoldable pub if_owner : ℕ → Option Session → Option Session
if_owner user none = none
if_owner user (some session) = if session.user_id == user then some session else none

unfoldable pub resumable : Registry → ℕ → ℕ → Option Session
resumable r session_id user = if_owner user (get session_id r.sessions)

-- The id is taken from its user's list, and an empty list from the map.
unfoldable pub disown : List (ℕ × List ℕ) → ℕ → ℕ → List (ℕ × List ℕ)
disown by_user user id = elim (get user by_user) [
  | none ↦ by_user
  | some owned ↦
      let kept : List ℕ = keep_if (λ x. not (x == id)) owned in
      if Set.is_empty kept then remove user by_user else insert user kept by_user
]

unfoldable pub forget : Registry → ℕ → Registry
forget r session_id = elim (get session_id r.sessions) [
  | none ↦ r
  | some session ↦ record r {
    sessions = remove session_id r.sessions;
    by_user = disown r.by_user session.user_id session_id;
  }
]

-- Disconnected no later than the cutoff.
unfoldable pub is_expired : GatewayConfig → ℕ → Session → Bool
is_expired config now s =
    not s.connected
    && elim s.disconnected_at [ none ↦ false | some at ↦ leb (at + config.session_ttl_ms) now ]

unfoldable pub expired : GatewayConfig → ℕ → List Session → List ℕ
expired config now [] = []
expired config now (s ∷ ss) =
    let rest : List ℕ = expired config now ss in
    if is_expired config now s then s.id ∷ rest else rest

unfoldable pub forget_all : Registry → List ℕ → Registry
forget_all r [] = r
forget_all r (id ∷ ids) = forget_all (forget r id) ids

-- The registry that `sweep_expired` leaves; the users that it returns are left out.
unfoldable pub sweep_expired : Registry → ℕ → Registry
sweep_expired r now = forget_all r (expired r.config now (values r.sessions))

-- Every session of the user that is registered is sent the event.
unfoldable pub dispatch_to :
    List (ℕ × Session) → List ℕ → DispatchEvent → List (ℕ × Session) × List (ℕ × Frame)
dispatch_to sessions [] event = (sessions, [])
dispatch_to sessions (id ∷ ids) event = elim (get id sessions) [
  | none ↦ dispatch_to sessions ids event
  | some session ↦
      let out : Session × List (ℕ × Frame) = Session.dispatch session event in
      let rest : List (ℕ × Session) × List (ℕ × Frame) =
        dispatch_to (insert id out.0 sessions) ids event in
      (rest.0, out.1 ++ rest.1)
]

unfoldable pub publish_to_users : Registry → List ℕ → DispatchEvent → Registry × List (ℕ × Frame)
publish_to_users r [] event = (r, [])
publish_to_users r (user ∷ users) event =
    let out : List (ℕ × Session) × List (ℕ × Frame) =
      dispatch_to r.sessions (owned_by r.by_user user) event in
    let rest : Registry × List (ℕ × Frame) =
      publish_to_users (record r { sessions = out.0 }) users event in
    (rest.0, out.1 ++ rest.1)

unfoldable pub is_online : Registry → ℕ → Bool
is_online r user =
    any (λ id. elim (get id r.sessions) [ none ↦ false | some s ↦ s.connected ])
      (owned_by r.by_user user)

unfoldable pub broadcast_reconnect : List Session → List (ℕ × Frame)
broadcast_reconnect [] = []
broadcast_reconnect (s ∷ ss) = Session.send_text s reconnect ++ broadcast_reconnect ss
