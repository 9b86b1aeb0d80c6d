-- ===== src/Rooms/Ceilings.antt =====
-- The ceilings of the ledger of publish grants hold whatever is called
-- (crates/api/src/livekit.rs).
use ldktela.Base.{
  ℕ, ◌≤◌, ◌<◌, ◌≡◌, refl, ap, ◌∙◌, ◌⊎◌, inl, inr, true, false, List, [], ◌∷◌, length, ◌==◌,
  Bool-cases, arith,
}
use ldktela.Base.Map.{get}
use ldktela.Base.Set
use ldktela.Base.Set.{contains-insert, contains-remove, length-insert, length-remove-le}
use ldktela.Protocol.{PublicationSource, screen, camera}
use ldktela.Rooms.{
  RoomSlots, Rooms, new, holders, ceiling, exceeds, wants, room_of, claim_publications,
  release_publication, release_publisher, forget_room, publisher_slots_taken,
}
use ldktela.Rooms.Ledger.{slots, held, held_of, held-get, held-remove, settled, claim-held}
use ldktela.Rooms.Releases.{release_publisher-held, release_publication-held, freed}

-- The calls that the handlers make on the ledger.
pub data Call : Type 0 where
  claims : ℕ → ℕ → List PublicationSource → Call
  releases : ℕ → ℕ → PublicationSource → Call
  leaves : ℕ → ℕ → Call
  forgets : ℕ → Call

unfoldable pub step : Rooms → Call → Rooms
step r (claims channel user wanted) = (claim_publications r channel user wanted).0
step r (releases channel user source) = release_publication r channel user source
step r (leaves channel user) = release_publisher r channel user
step r (forgets channel) = forget_room r channel

unfoldable pub run : Rooms → List Call → Rooms
run r [] = r
run r (c ∷ cs) = run (step r c) cs

-- No source of a channel has more holders than its ceiling.
Within : Rooms → Type 0
Within r =
    (j : ℕ) (source : PublicationSource)
    → length (held r.publisher_grants j source) ≤ ceiling r source

-- A source that was asked for and not refused was held already, or has a slot left.
pub exceeds-room :
    (r : Rooms) (room : RoomSlots) (user : ℕ) (wanted : List PublicationSource)
    (source : PublicationSource)
    → exceeds r room user wanted ≡ false
    → wants wanted source ≡ true
    → (Set.contains user (holders room source) ≡ true)
      ⊎ (length (holders room source) < ceiling r source)
unfolding exceeds wants
exceeds-room r room user [] source e w = cc
exceeds-room r room user (screen ∷ wanted) screen e w = ground arith
exceeds-room r room user (screen ∷ wanted) camera e w =
    ground (arith, exceeds-room r room user wanted camera)
exceeds-room r room user (camera ∷ wanted) screen e w =
    ground (arith, exceeds-room r room user wanted screen)
exceeds-room r room user (camera ∷ wanted) camera e w = ground arith

claim-ceiling :
    (r : Rooms) (c user : ℕ) (wanted : List PublicationSource) (source : PublicationSource)
    → ceiling (claim_publications r c user wanted).0 source ≡ ceiling r source
unfolding claim_publications ceiling
claim-ceiling r c user wanted screen = ground arith
claim-ceiling r c user wanted camera = ground arith

step-ceiling :
    (r : Rooms) (c : Call) (source : PublicationSource)
    → ceiling (step r c) source ≡ ceiling r source
unfolding step ceiling release_publication release_publisher forget_room
step-ceiling r (claims channel user wanted) source = claim-ceiling r channel user wanted source
step-ceiling r (releases channel user kind) screen = ground arith
step-ceiling r (releases channel user kind) camera = ground arith
step-ceiling r (leaves channel user) screen = ground arith
step-ceiling r (leaves channel user) camera = ground arith
step-ceiling r (forgets channel) screen = refl
step-ceiling r (forgets channel) camera = refl

-- In one room, by its holders.
length-settled :
    (r : Rooms) (room : RoomSlots) (user : ℕ) (wanted : List PublicationSource)
    (source : PublicationSource)
    → length (holders room source) ≤ ceiling r source
    → exceeds r room user wanted ≡ false
    → length (settled user wanted source (holders room source)) ≤ ceiling r source
unfolding settled
length-settled r room user wanted source h e = ground (
  arith,
  exceeds-room r room user wanted source e,
  length-insert user (holders room source),
  length-remove-le user (holders room source),
)

claim-Within :
    (r : Rooms) (c user : ℕ) (wanted : List PublicationSource)
    → Within r
    → Within (claim_publications r c user wanted).0
unfolding held room_of slots Within
claim-Within r c user wanted v j source =
    rw (claim-held r c user wanted j source, claim-ceiling r c user wanted source)
      (elim (Bool-cases (exceeds r (room_of r c) user wanted)) [
        | inl over ↦ rw over (v j source)
        | inr fits ↦ rw fits (elim (Bool-cases (c == j)) [
          | inl same ↦ rw same (
              length-settled r (slots r.publisher_grants j) user wanted source (v j source)
                (ap (λ k. exceeds r (room_of r k) user wanted) (ground arith) ∙ fits))
          | inr other ↦ rw other (v j source)
        ])
      ])

step-Within : (r : Rooms) (c : Call) → Within r → Within (step r c)
unfolding step Within freed forget_room
step-Within r (claims channel user wanted) v = claim-Within r channel user wanted v
step-Within r (releases channel user kind) v = λ j source. ground (
  arith,
  step-ceiling r (releases channel user kind) source,
  release_publication-held r channel user kind j source,
  length-remove-le user (held r.publisher_grants j source),
  v j source,
)
step-Within r (leaves channel user) v = λ j source. ground (
  arith,
  step-ceiling r (leaves channel user) source,
  release_publisher-held r channel user j source,
  length-remove-le user (held r.publisher_grants j source),
  v j source,
)
step-Within r (forgets channel) v = λ j source. ground (
  arith,
  step-ceiling r (forgets channel) source,
  held-remove channel j r.publisher_grants source,
  v j source,
)

run-Within : (r : Rooms) (cs : List Call) → Within r → Within (run r cs)
unfolding run
run-Within r [] v = v
run-Within r (c ∷ cs) v = run-Within (step r c) cs (step-Within r c v)

run-ceiling :
    (r : Rooms) (cs : List Call) (source : PublicationSource)
    → ceiling (run r cs) source ≡ ceiling r source
unfolding run
run-ceiling r [] source = refl
run-ceiling r (c ∷ cs) source = run-ceiling (step r c) cs source ∙ step-ceiling r c source

new-Within : (max_publishers max_cameras : ℕ) → Within (new max_publishers max_cameras)
unfolding new Within held_of get
new-Within p c j source = rw (held-get [] j source) (omega arith)

slots_taken-held :
    (r : Rooms) (c : ℕ) (source : PublicationSource)
    → publisher_slots_taken r c source ≡ length (held r.publisher_grants c source)
unfolding publisher_slots_taken held_of
slots_taken-held r c source = ground (arith, held-get r.publisher_grants c source)

-- Whatever sequence of claims, releases, departures and finished rooms a new ledger goes through, no
-- channel has more publications of a source than the configured ceiling of that source.
pub publisher_slots_taken-run :
    (max_publishers max_cameras : ℕ) (cs : List Call) (channel : ℕ) (source : PublicationSource)
    → publisher_slots_taken (run (new max_publishers max_cameras) cs) channel source
      ≤ ceiling (new max_publishers max_cameras) source
unfolding Within
publisher_slots_taken-run p k cs channel source = ground (
  arith,
  slots_taken-held (run (new p k) cs) channel source,
  run-Within (new p k) cs (new-Within p k) channel source,
  run-ceiling (new p k) cs source,
)
