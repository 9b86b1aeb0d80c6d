-- ===== src/Announce/Snapshots.antt =====
-- Who is tagged after a snapshot, for `update_tags` of crates/bot/src/announce.rs.
use ldktela.Base.{
  ℕ, true, false, ◌&&◌, ◌||◌, not, List, [], ◌∷◌, ◌==◌, if◌then◌else◌, ◌≡◌, refl, sym, ap, ◌∙◌,
  Bool-cases, arith, inl, inr,
}
use ldktela.Base.Set
use ldktela.Base.Set.{contains-insert}
use ldktela.Presence.Webhook.{RoomBroadcast}
use ldktela.Announce.Tags.{Discord, Queries, World, restore_nickname}
use ldktela.Announce.Rooms.{
  Tagged, is_pair, has_tag, drop_tag, tag_user, wanted_of, is_stale, stale_of, tag_wanted,
  untag_stale, update_tags,
}

contains-wanted_of :
    (user : ℕ) (publishers : List ℕ)
    → Set.contains user (wanted_of publishers) ≡ Set.contains user publishers
unfolding wanted_of Set.contains
contains-wanted_of user [] = refl
contains-wanted_of user (x ∷ publishers) =
    ground
      (arith, contains-wanted_of user publishers, contains-insert x user (wanted_of publishers))

same :
    (guild user g u : ℕ)
    → (guild == g) ≡ true
    → (user == u) ≡ true
    → ◌≡◌ {A = ℕ × ℕ} (guild, user) (g, u)
same guild user g u a b = ground arith

has_tag-cons :
    (guild user g u : ℕ) (tagged : Tagged)
    → has_tag g u ((guild, user) ∷ tagged) ≡ ((guild == g && user == u) || has_tag g u tagged)
unfolding has_tag is_pair
has_tag-cons guild user g u tagged = refl

has_tag-drop_tag :
    (guild user g u : ℕ) (tagged : Tagged)
    → has_tag g u (drop_tag guild user tagged)
      ≡ (not (guild == g && user == u) && has_tag g u tagged)
unfolding has_tag drop_tag is_pair
has_tag-drop_tag guild user g u [] = ground arith
has_tag-drop_tag guild user g u (p ∷ tagged) =
    ground (arith, has_tag-drop_tag guild user g u tagged)

contains-stale_of :
    (guild user : ℕ) (wanted : List ℕ) (tagged : Tagged)
    → Set.contains user (stale_of guild wanted tagged)
      ≡ (has_tag guild user tagged && not (Set.contains user wanted))
unfolding has_tag stale_of is_stale is_pair Set.contains
contains-stale_of guild user wanted [] = refl
contains-stale_of guild user wanted (p ∷ tagged) =
    ground (arith, contains-stale_of guild user wanted tagged)

already :
    (guild user g u : ℕ) (tagged : Tagged)
    → has_tag guild user tagged ≡ true
    → has_tag g u tagged ≡ ((guild == g && user == u) || has_tag g u tagged)
already guild user g u tagged e = elim (Bool-cases (guild == g)) [
  | inl a ↦ elim (Bool-cases (user == u)) [
    | inl b ↦ rw (a, b) (ap (λ p. has_tag p.0 p.1 tagged) (sym (same guild user g u a b)) ∙ e)
    | inr b ↦ rw (a, b) refl
  ]
  | inr a ↦ rw a refl
]

contains_head : (u : ℕ) (us : List ℕ) → Set.contains u (u ∷ us) ≡ true
unfolding Set.contains
contains_head u us = ground arith

contains_tail : (u v : ℕ) (us : List ℕ) → Set.contains u us ≡ true → Set.contains u (v ∷ us) ≡ true
unfolding Set.contains
contains_tail u v us h = ground arith

no_member : (us : List ℕ) → ((u : ℕ) → Set.contains u us ≡ false) → us ≡ []
no_member [] h = refl
no_member (u ∷ us) h = cc (h u, contains_head u us)

module _ (d : Discord) (q : Queries) where
  has_tag-tag_user :
      (at guild user g u : ℕ) (s : World d × Tagged)
      → has_tag g u (tag_user d q at guild user s).1
        ≡ ((guild == g && user == u) || has_tag g u s.1)
  unfolding tag_user
  has_tag-tag_user at guild user g u s = elim (Bool-cases (has_tag guild user s.1)) [
    | inl e ↦ rw e (already guild user g u s.1 e)
    | inr e ↦ rw e (has_tag-cons guild user g u s.1)
  ]

  has_tag-tag_wanted :
      (at guild g u : ℕ) (wanted : List ℕ) (s : World d × Tagged)
      → has_tag g u (tag_wanted d q at guild wanted s).1
        ≡ ((guild == g && Set.contains u wanted) || has_tag g u s.1)
  unfolding tag_wanted Set.contains
  has_tag-tag_wanted at guild g u [] s = ground arith
  has_tag-tag_wanted at guild g u (user ∷ wanted) s = ground (
    arith,
    has_tag-tag_wanted at guild g u wanted (tag_user d q at guild user s),
    has_tag-tag_user at guild user g u s,
  )

  has_tag-untag_stale :
      (guild g u : ℕ) (stale : List ℕ) (s : World d × Tagged)
      → has_tag g u (untag_stale d q guild stale s).1
        ≡ (not (guild == g && Set.contains u stale) && has_tag g u s.1)
  unfolding untag_stale Set.contains
  has_tag-untag_stale guild g u [] s = ground arith
  has_tag-untag_stale guild g u (user ∷ stale) s = ground (
    arith,
    has_tag-untag_stale guild g u stale
        (restore_nickname d q s.0 guild user, drop_tag guild user s.1),
    has_tag-drop_tag guild user g u s.1,
  )

  has_tag-update_tags :
      (at guild g u : ℕ) (snapshot : RoomBroadcast) (s : World d × Tagged)
      → has_tag g u (update_tags d q at guild snapshot s).1
        ≡ (if guild == g then Set.contains u snapshot.publishers else has_tag g u s.1)
  unfolding update_tags
  has_tag-update_tags at guild g u snapshot s =
      let wanted : List ℕ = wanted_of snapshot.publishers in
      let marked : World d × Tagged = tag_wanted d q at guild wanted s in
      ground (
        arith,
        has_tag-untag_stale guild g u (stale_of guild wanted marked.1) marked,
        has_tag-tag_wanted at guild g u wanted s,
        contains-stale_of guild u wanted marked.1,
        contains-wanted_of u snapshot.publishers,
      )

  tag_wanted_settled :
      (at guild : ℕ) (wanted : List ℕ) (s : World d × Tagged)
      → ((u : ℕ) → Set.contains u wanted ≡ true → has_tag guild u s.1 ≡ true)
      → tag_wanted d q at guild wanted s ≡ s
  unfolding tag_wanted tag_user
  tag_wanted_settled at guild [] s h = refl
  tag_wanted_settled at guild (user ∷ wanted) s h =
      rw (tag_user, h user (contains_head user wanted))
        (tag_wanted_settled at guild wanted s (λ u e. h u (contains_tail u user wanted e)))

  update_tags_settled :
      (at guild : ℕ) (snapshot : RoomBroadcast) (s : World d × Tagged)
      → ((u : ℕ) → has_tag guild u s.1 ≡ Set.contains u snapshot.publishers)
      → update_tags d q at guild snapshot s ≡ s
  unfolding update_tags untag_stale
  update_tags_settled at guild snapshot s h =
      let wanted : List ℕ = wanted_of snapshot.publishers in
      let marked =
        tag_wanted_settled at guild wanted s
          (λ u e. h u ∙ sym (contains-wanted_of u snapshot.publishers) ∙ e) in
      let none_stale = no_member (stale_of guild wanted s.1) (λ u. ground (
        arith,
        contains-stale_of guild u wanted s.1,
        contains-wanted_of u snapshot.publishers,
        h u,
      )) in
      rw (marked, none_stale) refl

-- After a snapshot of a room the tagged of its server are the publishers that it names, and no one
-- else, not even who still publishes in another room of the server; those of other servers are who they
-- were. The same snapshot once more changes nothing, whatever the queries would answer: no member is
-- edited twice for it.
pub update_tags_lem :
    (d : Discord) (q : Queries) (at guild : ℕ) (snapshot : RoomBroadcast) (s : World d × Tagged)
    → let after = update_tags d q at guild snapshot s in
      ((g u : ℕ)
        → has_tag g u after.1
          ≡ (if guild == g then Set.contains u snapshot.publishers else has_tag g u s.1))
      × ((later : Queries) (again : ℕ) → update_tags d later again guild snapshot after ≡ after)
update_tags_lem d q at guild snapshot s = (
  λ g u. has_tag-update_tags d q at guild g u snapshot s,
  λ later again.
      update_tags_settled d later again guild snapshot (update_tags d q at guild snapshot s)
        (λ u. ground (arith, has_tag-update_tags d q at guild guild u snapshot s)),
)
