-- ===== src/Gateway/Hub/Eviction.antt =====
-- Which session a new connection drops (`attach` of crates/api/src/gateway/hub.rs).
use ldktela.Base.{
  ℕ, ◌≤◌, ◌≡◌, refl, ap, ◌∙◌, none, some, List, [], ◌∷◌, ◌++◌, length, ◌==◌, length-append,
  if◌then◌else◌, arith,
}
use ldktela.Base.Map.{get, get-insert, get-remove}
use ldktela.Gateway.Session.{Session}
use ldktela.Gateway.Hub.{Registry, owned_by, drain, drop_sessions, attach, if_owner, resumable}

drain-within : (limit : ℕ) (ids : List ℕ) → length ids ≤ limit → drain limit ids ≡ (ids, [])
unfolding drain
drain-within limit [] h = refl
drain-within limit (id ∷ ids) h = ground arith

drain-full :
    (limit oldest id : ℕ) (ids : List ℕ)
    → length (oldest ∷ ids) ≡ limit
    → drain limit ((oldest ∷ ids) ++ id ∷ []) ≡ (ids ++ id ∷ [], oldest ∷ [])
unfolding drain
drain-full limit oldest id ids h =
    ground (arith, drain-within limit (ids ++ id ∷ []), length-append ids (id ∷ []))

drop_one :
    (oldest j : ℕ) (sessions : List (ℕ × Session))
    → get j (drop_sessions sessions (oldest ∷ [])).0
      ≡ (if oldest == j then none else get j sessions)
unfolding drop_sessions
drop_one oldest j sessions = ground (arith, get-remove oldest j sessions)

attached :
    (r : Registry) (s : Session) (oldest : ℕ) (ids : List ℕ) (j : ℕ)
    → owned_by r.by_user s.user_id ≡ oldest ∷ ids
    → length (oldest ∷ ids) ≡ r.config.max_connections_per_user
    → get j (attach r s).0.sessions
      ≡ (if s.id == j then some s else if oldest == j then none else get j r.sessions)
unfolding attach
attached r s oldest ids j e h =
    rw (e, drain-full r.config.max_connections_per_user oldest s.id ids h)
      (get-insert s.id j s (drop_sessions r.sessions (oldest ∷ [])).0
        ∙ rw (drop_one oldest j r.sessions) refl)

-- A user at the limit who connects once more: the oldest session is gone, the new one is resumable
-- by that user alone, and any other session of anybody is resumable as before.
pub resumable-attach :
    (r : Registry) (s : Session) (oldest : ℕ) (ids : List ℕ) (j user : ℕ)
    → owned_by r.by_user s.user_id ≡ oldest ∷ ids
    → length (oldest ∷ ids) ≡ r.config.max_connections_per_user
    → resumable (attach r s).0 j user ≡ (
        if s.id == j
        then if s.user_id == user then some s else none
        else if oldest == j
        then none
        else resumable r j user)
unfolding resumable if_owner
resumable-attach r s oldest ids j user e h =
    ap (if_owner user) (attached r s oldest ids j e h) ∙ ground arith
