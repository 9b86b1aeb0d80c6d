-- ===== src/Gateway/Hub/Counting.antt =====
-- Sessions counted by user, and what draining and dropping ids leaves
-- (crates/api/src/gateway/hub.rs).
use ldktela.Base.{
  ℕ, ◌+◌, ◌≤◌, ◌<◌, ◌≡◌, refl, true, ◌||◌, none, some, inl, inr, List, [], ◌∷◌, ◌++◌, length, ◌==◌,
  if◌then◌else◌, Bool-cases, Option-cases, arith,
}
use ldktela.Base.Map.{get, remove, get-remove, Distinct, remove-Distinct}
use ldktela.Base.Set
use ldktela.Base.Set.{contains-remove}
use ldktela.Gateway.Session.{Session}
use ldktela.Gateway.Hub.{drain, drop_sessions}

-- The ids under which a user's sessions are registered.
unfoldable pub sessions_of : ℕ → List (ℕ × Session) → List ℕ
sessions_of user [] = []
sessions_of user ((id, s) ∷ rest) =
    let more : List ℕ = sessions_of user rest in if s.user_id == user then id ∷ more else more

length-remove :
    (x : ℕ) (ys : List ℕ) → Set.contains x ys ≡ true → length (Set.remove x ys) + 1 ≤ length ys
unfolding Set.contains Set.remove
length-remove x [] h = cc
length-remove x (y ∷ ys) h = ground (arith, length-remove x ys, Set.length-remove-le x ys)

-- Sessions under different ids, all of which are in a list, are not more than the list has.
pub length-sessions_of :
    (user : ℕ) (m : List (ℕ × Session)) (owned : List ℕ)
    → Distinct m
    → ((k : ℕ) (s : Session)
        → get k m ≡ some s
        → (s.user_id == user) ≡ true
        → Set.contains k owned ≡ true)
    → length (sessions_of user m) ≤ length owned
unfolding sessions_of get
length-sessions_of user [] owned d h = omega arith
length-sessions_of user ((id, s) ∷ m) owned d h = elim (Bool-cases (s.user_id == user)) [
  | inl mine ↦
      let here : Set.contains id owned ≡ true = h id s (ground arith) mine in
      let rest =
        length-sessions_of user m (Set.remove id owned) d.1
          (λ k t found his. ground (arith, contains-remove id k owned, h k t, d.0)) in
      rw mine (omega (arith, rest, length-remove id owned here))
  | inr other ↦
      rw other (length-sessions_of user m owned d.1 (λ k t found his. ground (arith, h k t, d.0)))
]

pub drain-splits :
    (limit k : ℕ) (ids : List ℕ)
    → Set.contains k ids ≡ true
    → (Set.contains k (drain limit ids).1 || Set.contains k (drain limit ids).0) ≡ true
unfolding drain Set.contains
drain-splits limit k [] h = cc
drain-splits limit k (id ∷ ids) h = ground (arith, drain-splits limit k ids)

contains-append_last : (id : ℕ) (ids : List ℕ) → Set.contains id (ids ++ id ∷ []) ≡ true
unfolding Set.contains
contains-append_last id [] = ground arith
contains-append_last id (x ∷ ids) = ground (arith, contains-append_last id ids)

pub contains-append :
    (k id : ℕ) (ids : List ℕ) → Set.contains k ids ≡ true → Set.contains k (ids ++ id ∷ []) ≡ true
unfolding Set.contains
contains-append k id [] h = cc
contains-append k id (x ∷ ids) h = ground (arith, contains-append k id ids)

pub drain-last :
    (limit id : ℕ) (ids : List ℕ)
    → 0 < limit
    → Set.contains id (drain limit (ids ++ id ∷ [])).0 ≡ true
unfolding drain Set.contains
drain-last limit id [] h = ground arith
drain-last limit id (x ∷ ids) h =
    ground (arith, drain-last limit id ids h, contains-append_last id ids)

pub get-drop_sessions :
    (k : ℕ) (ids : List ℕ) (m : List (ℕ × Session))
    → get k (drop_sessions m ids).0 ≡ (if Set.contains k ids then none else get k m)
unfolding drop_sessions Set.contains
get-drop_sessions k [] m = refl
get-drop_sessions k (oldest ∷ ids) m =
    ground (arith, get-drop_sessions k ids (remove oldest m), get-remove oldest k m)

pub drop_sessions-Distinct :
    (ids : List ℕ) (m : List (ℕ × Session)) → Distinct m → Distinct (drop_sessions m ids).0
unfolding drop_sessions
drop_sessions-Distinct [] m d = d
drop_sessions-Distinct (oldest ∷ ids) m d = elim (Option-cases (get oldest m)) [
  | inl e ↦
      rw (drop_sessions, e)
        (drop_sessions-Distinct ids (remove oldest m) (remove-Distinct oldest m d))
  | inr (s, e) ↦
      rw (drop_sessions, e)
        (drop_sessions-Distinct ids (remove oldest m) (remove-Distinct oldest m d))
]
