-- ===== src/Rooms/Ledger.antt =====
-- The ledger of publish grants (crates/api/src/livekit.rs): its ceilings, and what each call changes.
use ldktela.Base.{
  ℕ, ◌≡◌, refl, ap, ◌∙◌, inl, inr, true, false, Option, none, some, List, [], ◌∷◌, ◌==◌,
  if◌then◌else◌, Bool-cases, Option-cases, arith,
}
use ldktela.Base.Map.{get, insert, remove, get-insert, get-remove}
use ldktela.Base.Set
use ldktela.Protocol.{PublicationSource, screen, camera}
use ldktela.Rooms.{
  RoomSlots, Rooms, granted, room_capacity, no_slots, holders, with_holders, slots_empty, exceeds,
  wants, settle, store, room_of, claim_publications,
}

-- The slots of a channel, by the map alone.
unfoldable pub slots : List (ℕ × RoomSlots) → ℕ → RoomSlots
slots grants channel = elim (get channel grants) [ none ↦ no_slots | some room ↦ room ]

unfoldable pub held : List (ℕ × RoomSlots) → ℕ → PublicationSource → List ℕ
unfolding slots
held grants channel source = holders (slots grants channel) source

none-holders : (source : PublicationSource) → holders no_slots source ≡ []
unfolding holders
none-holders screen = refl
none-holders camera = refl

-- Nobody holds anything in a room that the map does not have.
unfoldable pub held_of : Option RoomSlots → PublicationSource → List ℕ
held_of none source = []
held_of (some room) source = holders room source

pub held-get :
    (g : List (ℕ × RoomSlots)) (c : ℕ) (source : PublicationSource)
    → held g c source ≡ held_of (get c g) source
unfolding held held_of slots
held-get g c source = elim (Option-cases (get c g)) [
  | inl h ↦ rw (h, slots, held) (none-holders source)
  | inr (room, h) ↦ rw (h, slots, held) refl
]

empty-nil : (xs : List ℕ) → Set.is_empty xs ≡ true → xs ≡ []
unfolding Set.is_empty
empty-nil [] h = refl
empty-nil (x ∷ xs) h = cc

empty-holders :
    (room : RoomSlots) (source : PublicationSource)
    → slots_empty room ≡ true
    → holders room source ≡ []
unfolding slots_empty holders
empty-holders room screen h = empty-nil room.screens (grind arith)
empty-holders room camera h = empty-nil room.cameras (grind arith)

get-store :
    (c j : ℕ) (room : RoomSlots) (g : List (ℕ × RoomSlots))
    → get j (store c room g)
      ≡ (if c == j then if slots_empty room then none else some room else get j g)
unfolding store
get-store c j room g = ground (arith, get-remove c j g, get-insert c j room g)

-- What a room put back holds, and that no other room is touched.
pub held-store :
    (c j : ℕ) (room : RoomSlots) (g : List (ℕ × RoomSlots)) (source : PublicationSource)
    → held (store c room g) j source ≡ (if c == j then holders room source else held g j source)
unfolding held_of
held-store c j room g source =
    held-get (store c room g) j source
    ∙ ground (arith, get-store c j room g, held-get g j source, empty-holders room source)

held-insert :
    (c j : ℕ) (room : RoomSlots) (g : List (ℕ × RoomSlots)) (source : PublicationSource)
    → held (insert c room g) j source ≡ (if c == j then holders room source else held g j source)
unfolding held_of
held-insert c j room g source =
    held-get (insert c room g) j source ∙ ground (arith, get-insert c j room g, held-get g j source)

-- To put back what was there changes nothing.
held-insert_same :
    (c j : ℕ) (g : List (ℕ × RoomSlots)) (source : PublicationSource)
    → held (insert c (slots g c) g) j source ≡ held g j source
unfolding held
held-insert_same c j g source = elim (Bool-cases (c == j)) [
  | inr other ↦ held-insert c j (slots g c) g source ∙ rw other
  | inl same ↦
      held-insert c j (slots g c) g source
      ∙ rw same (ap (λ k. holders (slots g k) source) (ground arith))
]

pub held-remove :
    (c j : ℕ) (g : List (ℕ × RoomSlots)) (source : PublicationSource)
    → held (remove c g) j source ≡ (if c == j then [] else held g j source)
unfolding held_of
held-remove c j g source =
    held-get (remove c g) j source ∙ ground (arith, get-remove c j g, held-get g j source)

-- The two rounds of the second loop, at either source.
holders-settle :
    (user : ℕ) (wanted : List PublicationSource) (room : RoomSlots) (source : PublicationSource)
    → holders (settle user wanted camera (settle user wanted screen room)) source ≡ (
        if wants wanted source
        then Set.insert user (holders room source)
        else Set.remove user (holders room source))
unfolding settle holders with_holders
holders-settle user wanted room screen = refl
holders-settle user wanted room camera = refl

-- What each call does to what is held. A claim:
unfoldable pub settled : ℕ → List PublicationSource → PublicationSource → List ℕ → List ℕ
settled user wanted source ids =
    if wants wanted source then Set.insert user ids else Set.remove user ids

-- The room that the second loop leaves.
settled_room : ℕ → List PublicationSource → RoomSlots → RoomSlots
settled_room user wanted room = settle user wanted camera (settle user wanted screen room)

refused_claim :
    (r : Rooms) (c user : ℕ) (wanted : List PublicationSource)
    → exceeds r (room_of r c) user wanted ≡ true
    → claim_publications r c user wanted ≡ (
      record r { publisher_grants = insert c (slots r.publisher_grants c) r.publisher_grants },
      room_capacity,
    )
unfolding claim_publications room_of slots
refused_claim r c user wanted h = rw h refl

granted_claim :
    (r : Rooms) (c user : ℕ) (wanted : List PublicationSource)
    → exceeds r (room_of r c) user wanted ≡ false
    → claim_publications r c user wanted ≡ (
      record r {
        publisher_grants =
            store c (settled_room user wanted (slots r.publisher_grants c)) r.publisher_grants;
      },
      granted,
    )
unfolding claim_publications room_of slots settled_room
granted_claim r c user wanted h = rw h refl

held-settled :
    (r : Rooms) (c j user : ℕ) (wanted : List PublicationSource) (source : PublicationSource)
    → held
        (store c (settled_room user wanted (slots r.publisher_grants c)) r.publisher_grants)
        j
        source
      ≡ (if c == j
          then settled user wanted source (held r.publisher_grants j source)
          else held r.publisher_grants j source)
unfolding settled_room settled held
held-settled r c j user wanted source = elim (Bool-cases (c == j)) [
  | inr other ↦ held-store c j _ r.publisher_grants source ∙ rw other
  | inl same ↦
      held-store c j _ r.publisher_grants source
      ∙ rw same (
          holders-settle user wanted (slots r.publisher_grants c) source
          ∙ ap (λ k. settled user wanted source (held r.publisher_grants k source)) (ground arith))
]

-- A refused claim changes nothing that is held; a granted one gives the user exactly the sources
-- asked for, and leaves the other channels alone.
pub claim-held :
    (r : Rooms) (c user : ℕ) (wanted : List PublicationSource) (j : ℕ) (source : PublicationSource)
    → held (claim_publications r c user wanted).0.publisher_grants j source ≡ (
        if exceeds r (room_of r c) user wanted
        then held r.publisher_grants j source
        else if c == j
        then settled user wanted source (held r.publisher_grants j source)
        else held r.publisher_grants j source)
claim-held r c user wanted j source = elim (Bool-cases (exceeds r (room_of r c) user wanted)) [
  | inl over ↦
      rw (refused_claim r c user wanted over, over) (held-insert_same c j r.publisher_grants source)
  | inr fits ↦ rw (granted_claim r c user wanted fits, fits) (held-settled r c j user wanted source)
]
