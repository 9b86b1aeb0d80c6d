-- ===== src/Rooms.antt =====
-- crates/api/src/livekit.rs: the ledger of publish grants, kept per Discord voice channel and per
-- source, and the tests on webhook events. The lock makes each method atomic. Issuing and verifying
-- tokens is the LiveKit SDK's and is not modelled.
pub mod Ledger
pub mod Releases
pub mod Ceilings
pub mod Claims
pub mod Names
pub mod Identities
mod Tests
use ldktela.Base.{
  ℕ, ◌≤◌, ◌≡◌, Bool, true, false, not, ◌&&◌, ◌||◌, Option, none, some, List, [], ◌∷◌, length, leb,
  if◌then◌else◌,
}
use ldktela.Base.Map.{get, insert, remove}
use ldktela.Base.Set
use ldktela.Protocol.{PublicationSource, screen, camera}

pub record RoomSlots : Type 0 where
  pub screens : List ℕ
  pub cameras : List ℕ

-- The ceilings of the configuration, and the ledger.
pub record Rooms : Type 0 where
  pub max_publishers : ℕ
  pub max_cameras : ℕ
  pub publisher_grants : List (ℕ × RoomSlots)

pub data Claim : Type 0 where
  granted room_capacity : Claim

abbrev pub no_slots : RoomSlots
no_slots = record { screens = []; cameras = [] }

unfoldable pub new : ℕ → ℕ → Rooms
new max_publishers max_cameras = record {
  max_publishers = max_publishers;
  max_cameras = max_cameras;
  publisher_grants = [];
}

unfoldable pub holders : RoomSlots → PublicationSource → List ℕ
holders room screen = room.screens
holders room camera = room.cameras

-- `holders_mut`, and what is written through it.
unfoldable pub with_holders : RoomSlots → PublicationSource → List ℕ → RoomSlots
with_holders room screen ids = record room { screens = ids }
with_holders room camera ids = record room { cameras = ids }

unfoldable pub slots_empty : RoomSlots → Bool
slots_empty room = Set.is_empty room.screens && Set.is_empty room.cameras

unfoldable pub ceiling : Rooms → PublicationSource → ℕ
ceiling r screen = r.max_publishers
ceiling r camera = r.max_cameras

-- The first loop of `claim_publications`: whether some wanted source has no slot left.
unfoldable pub exceeds : Rooms → RoomSlots → ℕ → List PublicationSource → Bool
exceeds r room user [] = false
exceeds r room user (source ∷ wanted) =
    let rest : Bool = exceeds r room user wanted in
    if Set.contains user (holders room source)
    then rest
    else if leb (ceiling r source) (length (holders room source))
    then true
    else rest

unfoldable pub wants : List PublicationSource → PublicationSource → Bool
wants [] source = false
wants (screen ∷ wanted) screen = true
wants (camera ∷ wanted) camera = true
wants (_ ∷ wanted) source = wants wanted source

-- One round of the second loop.
unfoldable pub settle : ℕ → List PublicationSource → PublicationSource → RoomSlots → RoomSlots
settle user wanted source room = with_holders room source (
    if wants wanted source
    then Set.insert user (holders room source)
    else Set.remove user (holders room source))

-- The room is put back, or dropped from the ledger once it is empty.
unfoldable pub store : ℕ → RoomSlots → List (ℕ × RoomSlots) → List (ℕ × RoomSlots)
store channel room grants =
    if slots_empty room then remove channel grants else insert channel room grants

unfoldable pub room_of : Rooms → ℕ → RoomSlots
room_of r channel = elim (get channel r.publisher_grants) [ none ↦ no_slots | some room ↦ room ]

-- The entry that `entry(..).or_default()` makes stays behind where the claim is refused.
unfoldable pub claim_publications : Rooms → ℕ → ℕ → List PublicationSource → Rooms × Claim
claim_publications r channel user wanted =
    let room : RoomSlots = room_of r channel in
    if exceeds r room user wanted
    then (record r { publisher_grants = insert channel room r.publisher_grants }, room_capacity)
    else (
      record r {
        publisher_grants =
            store channel (settle user wanted camera (settle user wanted screen room))
              r.publisher_grants;
      },
      granted,
    )

unfoldable pub release_publication : Rooms → ℕ → ℕ → PublicationSource → Rooms
release_publication r channel user source = elim (get channel r.publisher_grants) [
  | none ↦ r
  | some room ↦ record r {
    publisher_grants =
        store channel (with_holders room source (Set.remove user (holders room source)))
          r.publisher_grants;
  }
]

unfoldable pub release_publisher : Rooms → ℕ → ℕ → Rooms
release_publisher r channel user = elim (get channel r.publisher_grants) [
  | none ↦ r
  | some room ↦ record r {
    publisher_grants =
        store channel
          (record {
            screens = Set.remove user room.screens;
            cameras = Set.remove user room.cameras;
          })
          r.publisher_grants;
  }
]

unfoldable pub publisher_slots_taken : Rooms → ℕ → PublicationSource → ℕ
publisher_slots_taken r channel source = elim (get channel r.publisher_grants) [
  | none ↦ 0
  | some room ↦ length (holders room source)
]

unfoldable pub forget_room : Rooms → ℕ → Rooms
forget_room r channel = record r { publisher_grants = remove channel r.publisher_grants }
