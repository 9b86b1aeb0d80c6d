-- ===== src/Rooms/Claims.antt =====
-- What a claim of publish grants answers and does (`claim_publications` of
-- crates/api/src/livekit.rs).
use ldktela.Base.{
  ◌↔◌, ℕ, ◌<◌, ◌≡◌, refl, ◌∙◌, ◌⊎◌, inl, true, false, not, ◌&&◌, List, [], ◌∷◌, length, ◌==◌,
  if◌then◌else◌, arith,
}
use ldktela.Base.Set
use ldktela.Base.Set.{contains-insert, contains-remove, length-insert, length-remove-le}
use ldktela.Protocol.{PublicationSource, screen, camera}
use ldktela.Rooms.{
  RoomSlots, Rooms, granted, room_capacity, holders, ceiling, exceeds, wants, room_of,
  claim_publications, release_publisher,
}
use ldktela.Rooms.Ledger.{slots, held, settled, claim-held}
use ldktela.Rooms.Releases.{release_publisher-held}
use ldktela.Rooms.Ceilings.{exceeds-room}

-- The user has a slot of the source already, or there is one left.
abbrev pub Fits : Rooms → RoomSlots → ℕ → PublicationSource → Type 0
Fits r room user source =
    (Set.contains user (holders room source) ≡ true)
    ⊎ (length (holders room source) < ceiling r source)

AllFit : Rooms → RoomSlots → ℕ → List PublicationSource → Type 0
AllFit r room user wanted =
    (source : PublicationSource) → wants wanted source ≡ true → Fits r room user source

rest-AllFit :
    (r : Rooms) (room : RoomSlots) (user : ℕ) (kind : PublicationSource)
    (wanted : List PublicationSource)
    → AllFit r room user (kind ∷ wanted)
    → Fits r room user kind × AllFit r room user wanted
unfolding AllFit wants
rest-AllFit r room user screen wanted h = (
  h screen refl,
  λ source. elim source as (λ k. wants wanted k ≡ true → Fits r room user k) [
    | screen ↦ λ w. h screen refl
    | camera ↦ h camera
  ],
)
rest-AllFit r room user camera wanted h = (
  h camera refl,
  λ source. elim source as (λ k. wants wanted k ≡ true → Fits r room user k) [
    | screen ↦ h screen
    | camera ↦ λ w. h camera refl
  ],
)

exceeds-AllFit :
    (r : Rooms) (room : RoomSlots) (user : ℕ) (wanted : List PublicationSource)
    → AllFit r room user wanted
    → exceeds r room user wanted ≡ false
unfolding exceeds
exceeds-AllFit r room user [] h = refl
exceeds-AllFit r room user (kind ∷ wanted) h =
    let (fits, rest) = rest-AllFit r room user kind wanted h in
    let none_over = exceeds-AllFit r room user wanted rest in ground arith

pub verdict-claim :
    (r : Rooms) (c user : ℕ) (wanted : List PublicationSource)
    → (claim_publications r c user wanted).1
      ≡ (if exceeds r (room_of r c) user wanted then room_capacity else granted)
unfolding claim_publications
verdict-claim r c user wanted = ground arith

granted-exceeds :
    (r : Rooms) (c user : ℕ) (wanted : List PublicationSource)
    → (claim_publications r c user wanted).1 ≡ granted
    → exceeds r (room_of r c) user wanted ≡ false
granted-exceeds r c user wanted h = ground (arith, verdict-claim r c user wanted)

-- A claim is granted exactly if, of every source asked for, the user has a slot in that channel
-- already or the channel has fewer holders than the ceiling.
pub claim_publications-granted :
    (r : Rooms) (c user : ℕ) (wanted : List PublicationSource)
    → ((claim_publications r c user wanted).1 ≡ granted) ↔ (
        (source : PublicationSource)
        → wants wanted source ≡ true
        → Fits r (room_of r c) user source)
unfolding AllFit
claim_publications-granted r c user wanted = (
  λ h source w.
      exceeds-room r (room_of r c) user wanted source (granted-exceeds r c user wanted h) w,
  λ h.
      let fits = exceeds-AllFit r (room_of r c) user wanted h in
      ground (arith, verdict-claim r c user wanted),
)

-- Who holds a slot after a claim of `user`, at any channel and source: after a refused claim those
-- who held one before; after a granted one the same, but that in the channel of the claim `user`
-- holds exactly the sources asked for.
pub holds-claim :
    (r : Rooms) (c user : ℕ) (wanted : List PublicationSource) (j : ℕ) (source : PublicationSource)
    (x : ℕ)
    → Set.contains x (held (claim_publications r c user wanted).0.publisher_grants j source) ≡ (
        if not (exceeds r (room_of r c) user wanted) && c == j && user == x
        then wants wanted source
        else Set.contains x (held r.publisher_grants j source))
unfolding settled
holds-claim r c user wanted j source x = ground (
  arith,
  claim-held r c user wanted j source,
  contains-insert user x (held r.publisher_grants j source),
  contains-remove user x (held r.publisher_grants j source),
)

renewed-AllFit :
    (r : Rooms) (c user : ℕ) (wanted : List PublicationSource)
    → exceeds r (room_of r c) user wanted ≡ false
    → AllFit
        (claim_publications r c user wanted).0
        (room_of (claim_publications r c user wanted).0 c)
        user
        wanted
unfolding AllFit held slots room_of
renewed-AllFit r c user wanted e source w =
    inl (holds-claim r c user wanted c source user ∙ ground arith)

-- A user whose claim was granted and who claims the same again at once is granted again, although
-- the room may have become full by the first claim.
pub claim_publications-renewed :
    (r : Rooms) (c user : ℕ) (wanted : List PublicationSource)
    → (claim_publications r c user wanted).1 ≡ granted
    → (claim_publications (claim_publications r c user wanted).0 c user wanted).1 ≡ granted
unfolding AllFit
claim_publications-renewed r c user wanted h =
    (claim_publications-granted (claim_publications r c user wanted).0 c user wanted).1
      (renewed-AllFit r c user wanted (granted-exceeds r c user wanted h))

-- Once the user has left the channel, the user holds nothing there, and whatever else anybody holds
-- is untouched.
pub holds-release_publisher :
    (r : Rooms) (c user j : ℕ) (source : PublicationSource) (x : ℕ)
    → Set.contains x (held (release_publisher r c user).publisher_grants j source)
      ≡ (not (c == j && user == x) && Set.contains x (held r.publisher_grants j source))
holds-release_publisher r c user j source x = ground (
  arith,
  release_publisher-held r c user j source,
  contains-remove user x (held r.publisher_grants j source),
)
