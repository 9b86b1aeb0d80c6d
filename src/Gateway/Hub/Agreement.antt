-- ===== src/Gateway/Hub/Agreement.antt =====
-- Every registered session is counted with its user: what `attach` and `forget` keep of that
-- (crates/api/src/gateway/hub.rs).
use mathlib.Core.Path.{subst}
use mathlib.Core.Option.{some-injective}
use ldktela.Base.{
  ℕ, ◌<◌, ◌≡◌, refl, sym, ap, true, false, not, some, inl, inr, List, [], ◌∷◌, ◌++◌, ◌==◌, keep_if,
  Bool-cases, Option-cases, arith,
}
use ldktela.Base.Map.{get, get-insert, get-remove, Distinct, insert-Distinct, remove-Distinct}
use ldktela.Base.Set
use ldktela.Base.Set.{contains-remove}
use ldktela.Gateway.Session.{Session}
use ldktela.Gateway.Hub.{
  GatewayConfig, Registry, new, owned_by, drain, drop_sessions, attach, disown, forget, forget_all,
}
use ldktela.Gateway.Hub.Limit.{owned-insert, owned-remove, owned-here, disown-found}
use ldktela.Gateway.Hub.Counting.{
  drain-splits, drain-last, contains-append, get-drop_sessions, drop_sessions-Distinct,
}

-- Whatever is registered is counted with its user.
pub record Agreed (r : Registry) : Type 0 where
  pub distinct : Distinct r.sessions
  pub counted :
      (k : ℕ) (s : Session)
      → get k r.sessions ≡ some s
      → Set.contains k (owned_by r.by_user s.user_id) ≡ true

pub new-Agreed : (config : GatewayConfig) → Agreed (new config)
unfolding new get
new-Agreed config = record { distinct = tt; counted = λ k s e. cc }

attach-counted :
    (r : Registry) (session : Session) (k : ℕ) (s : Session)
    → 0 < r.config.max_connections_per_user
    → Agreed r
    → get k (attach r session).0.sessions ≡ some s
    → Set.contains k (owned_by (attach r session).0.by_user s.user_id) ≡ true
unfolding attach
attach-counted r session k s room v found =
    let limit : ℕ = r.config.max_connections_per_user in
    let owned : List ℕ = owned_by r.by_user session.user_id in
    let drained : List ℕ × List ℕ = drain limit (owned ++ session.id ∷ []) in
    let listed = owned-insert session.user_id s.user_id drained.0 r.by_user in
    let put = get-insert session.id k session (drop_sessions r.sessions drained.1).0 in
    elim (Bool-cases (session.id == k)) [
      | inl e ↦
          let same : session ≡ s = some-injective session s (ground (arith, put)) in
          let its : session.user_id ≡ s.user_id = ap (λ (x : Session). x.user_id) same in
          let key : session.id ≡ k = ground arith in
          let last : Set.contains k drained.0 ≡ true =
            subst (λ (i : ℕ). Set.contains i drained.0 ≡ true) key
              (drain-last limit session.id owned room) in
          ground (arith, listed)
      | inr e ↦
          let survived = get-drop_sessions k drained.1 r.sessions in
          let before : get k r.sessions ≡ some s = ground (arith, put) in
          let gone : Set.contains k drained.1 ≡ false = ground (arith, put) in
          let had = v.counted k s before in
          elim (Bool-cases (session.user_id == s.user_id)) [
            | inl mine ↦
                let its : session.user_id ≡ s.user_id = ground arith in
                let had' : Set.contains k owned ≡ true =
                  subst (λ (u : ℕ). Set.contains k (owned_by r.by_user u) ≡ true) (sym its) had in
                let split =
                  drain-splits limit k (owned ++ session.id ∷ [])
                    (contains-append k session.id owned had') in
                ground (arith, listed)
            | inr other ↦ ground (arith, listed)
          ]
    ]

pub attach-Agreed :
    (r : Registry) (session : Session)
    → 0 < r.config.max_connections_per_user
    → Agreed r
    → Agreed (attach r session).0
unfolding attach
attach-Agreed r session room v = record {
  distinct = insert-Distinct session.id session _ (drop_sessions-Distinct _ r.sessions v.distinct);
  counted = λ k s found. attach-counted r session k s room v found;
}

contains-keep_if :
    (k id : ℕ) (ids : List ℕ)
    → (id == k) ≡ false
    → Set.contains k (keep_if (λ x. not (x == id)) ids) ≡ Set.contains k ids
unfolding Set.contains
contains-keep_if k id [] h = refl
contains-keep_if k id (x ∷ ids) h = ground (arith, contains-keep_if k id ids h)

contains-disown :
    (k id user j : ℕ) (m : List (ℕ × List ℕ))
    → (id == k) ≡ false
    → Set.contains k (owned_by m j) ≡ true
    → Set.contains k (owned_by (disown m user id) j) ≡ true
unfolding disown
contains-disown k id user j m apart h = elim (Option-cases (get user m)) [
  | inl e ↦ rw (disown, e) h
  | inr (owned, e) ↦
      let kept : List ℕ = keep_if (λ x. not (x == id)) owned in
      let still = contains-keep_if k id owned apart in
      let nobody = Set.contains-is_empty k kept in
      let its = owned-here user owned m e in
      elim (Bool-cases (user == j)) [
        | inl mine ↦
            let same : user ≡ j = ground arith in
            let had : Set.contains k owned ≡ true =
              subst (λ (xs : List ℕ). Set.contains k xs ≡ true) its
                (subst (λ (u : ℕ). Set.contains k (owned_by m u) ≡ true) (sym same) h) in
            ground (
              arith,
              disown-found user id owned m e,
              owned-remove user j m,
              owned-insert user j kept m,
            )
        | inr other ↦ ground (
          arith,
          disown-found user id owned m e,
          owned-remove user j m,
          owned-insert user j kept m,
        )
      ]
]

pub forget-Agreed : (r : Registry) (id : ℕ) → Agreed r → Agreed (forget r id)
unfolding forget
forget-Agreed r id v = elim (Option-cases (get id r.sessions)) [
  | inl e ↦ rw (forget, e) v
  | inr (s, e) ↦
      rw (forget, e)
        (record {
          distinct = remove-Distinct id r.sessions v.distinct;
          counted = λ k t found.
              let apart : (id == k) ≡ false = ground (arith, get-remove id k r.sessions) in
              let before : get k r.sessions ≡ some t = ground (arith, get-remove id k r.sessions) in
              contains-disown k id s.user_id t.user_id r.by_user apart (v.counted k t before);
        })
]

pub forget_all-Agreed : (r : Registry) (ids : List ℕ) → Agreed r → Agreed (forget_all r ids)
unfolding forget_all
forget_all-Agreed r [] v = v
forget_all-Agreed r (id ∷ ids) v = forget_all-Agreed (forget r id) ids (forget-Agreed r id v)
