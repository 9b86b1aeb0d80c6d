-- ===== src/Rooms/Releases.antt =====
-- What giving slots back changes (`release_publication`, `release_publisher` of
-- crates/api/src/livekit.rs).
use ldktela.Base.{
  ℕ, ◌≡◌, refl, sym, ap, ◌∙◌, inl, inr, none, some, List, [], ◌∷◌, ◌==◌, if◌then◌else◌, Bool-cases,
  Option-cases, arith,
}
use ldktela.Base.Map.{get}
use ldktela.Base.Set
use ldktela.Base.Set.{contains-insert, contains-remove, length-insert, length-remove-le}
use ldktela.Protocol.{PublicationSource, screen, camera}
use ldktela.Rooms.{
  RoomSlots, Rooms, holders, with_holders, wants, store, release_publication, release_publisher,
}
use ldktela.Rooms.Ledger.{held, held_of, held-get, held-store}

held-here :
    (c : ℕ) (g : List (ℕ × RoomSlots)) (room : RoomSlots) (source : PublicationSource)
    → get c g ≡ some room
    → held g c source ≡ holders room source
unfolding held_of
held-here c g room source h = held-get g c source ∙ rw h refl

held-missing :
    (c : ℕ) (g : List (ℕ × RoomSlots)) (source : PublicationSource)
    → get c g ≡ none
    → held g c source ≡ []
unfolding held_of
held-missing c g source h = held-get g c source ∙ rw h refl

-- A room put back in place of the one that was there.
held-update :
    (c j : ℕ) (g : List (ℕ × RoomSlots)) (room room' : RoomSlots) (source : PublicationSource)
    (f : List ℕ → List ℕ)
    → get c g ≡ some room
    → holders room' source ≡ f (holders room source)
    → held (store c room' g) j source ≡ (if c == j then f (held g j source) else held g j source)
held-update c j g room room' source f h e = elim (Bool-cases (c == j)) [
  | inr other ↦ held-store c j room' g source ∙ rw other
  | inl same ↦
      held-store c j room' g source
      ∙ rw same
          (e ∙ ap f (sym (held-here c g room source h) ∙ ap (λ k. held g k source) (ground arith)))
]

-- Where there is no room, a change that keeps the empty list keeps all.
held-no_update :
    (c j : ℕ) (g : List (ℕ × RoomSlots)) (source : PublicationSource) (f : List ℕ → List ℕ)
    → get c g ≡ none
    → f [] ≡ []
    → held g j source ≡ (if c == j then f (held g j source) else held g j source)
held-no_update c j g source f h e = elim (Bool-cases (c == j)) [
  | inr other ↦ rw other
  | inl same ↦
      let nil : held g j source ≡ [] =
        ap (λ k. held g k source) (ground arith) ∙ held-missing c g source h in
      rw (same, nil) (sym e)
]

remove_both :
    (user : ℕ) (room : RoomSlots) (source : PublicationSource)
    → holders
        (record { screens = Set.remove user room.screens; cameras = Set.remove user room.cameras })
        source
      ≡ Set.remove user (holders room source)
unfolding holders
remove_both user room screen = refl
remove_both user room camera = refl

pub release_publisher-held :
    (r : Rooms) (c user j : ℕ) (source : PublicationSource)
    → held (release_publisher r c user).publisher_grants j source ≡ (
        if c == j
        then Set.remove user (held r.publisher_grants j source)
        else held r.publisher_grants j source)
unfolding release_publisher Set.remove
release_publisher-held r c user j source = elim (Option-cases (get c r.publisher_grants)) [
  | inl missing ↦
      rw (missing, release_publisher)
        (held-no_update c j r.publisher_grants source (Set.remove user) missing refl)
  | inr (room, here) ↦
      rw (here, release_publisher)
        (held-update c j r.publisher_grants room _ source (Set.remove user) here
          (remove_both user room source))
]

-- What giving one source back does to the holders of each.
unfoldable pub freed : ℕ → PublicationSource → PublicationSource → List ℕ → List ℕ
freed user kind source ids = if wants (kind ∷ []) source then Set.remove user ids else ids

freed-holders :
    (user : ℕ) (room : RoomSlots) (kind source : PublicationSource)
    → holders (with_holders room kind (Set.remove user (holders room kind))) source
      ≡ freed user kind source (holders room source)
unfolding freed holders with_holders wants
freed-holders user room screen screen = refl
freed-holders user room screen camera = refl
freed-holders user room camera screen = refl
freed-holders user room camera camera = refl

freed-nil : (user : ℕ) (kind source : PublicationSource) → freed user kind source [] ≡ []
unfolding freed Set.remove wants
freed-nil user screen screen = refl
freed-nil user screen camera = refl
freed-nil user camera screen = refl
freed-nil user camera camera = refl

pub release_publication-held :
    (r : Rooms) (c user : ℕ) (kind : PublicationSource) (j : ℕ) (source : PublicationSource)
    → held (release_publication r c user kind).publisher_grants j source ≡ (
        if c == j
        then freed user kind source (held r.publisher_grants j source)
        else held r.publisher_grants j source)
unfolding release_publication
release_publication-held r c user kind j source = elim (Option-cases (get c r.publisher_grants)) [
  | inl missing ↦
      rw (missing, release_publication)
        (held-no_update c j r.publisher_grants source (freed user kind source) missing
          (freed-nil user kind source))
  | inr (room, here) ↦
      rw (here, release_publication)
        (held-update c j r.publisher_grants room _ source (freed user kind source) here
          (freed-holders user room kind source))
]
