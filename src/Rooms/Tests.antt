-- ===== src/Rooms/Tests.antt =====
-- The ledger of publish grants at concrete inputs.
use ldktela.Base.{
  ℕ, zero, suc, ap, Option, none, some, length, false, arith, ◌≤◌, ◌≡◌, refl, ◌↔◌, true, not, ◌&&◌,
  List, [], ◌∷◌, ◌==◌, if◌then◌else◌,
}
use mathlib.Core.Option.{some-injective}
use ldktela.Base.Int.{pos, negsuc}
use ldktela.Base.Decimal.{print_nat, parse_nat, digits}
use ldktela.Rooms.Names.{
  Text, room_name, room_prefix, channel_of_room, strip_prefix, print_i64, parse_signed, negated,
  WebhookEvent, channel, user_of, publisher_identity, is_publisher_connection,
}
use ldktela.Rooms.Identities.{NoTilde, user_of-publisher_identity}
use ldktela.Base.Set
use ldktela.Base.Map.{get}
use ldktela.Protocol.{PublicationSource, screen, camera}
use ldktela.Rooms.{
  Rooms, holders, granted, new, ceiling, exceeds, wants, room_of, claim_publications,
  publisher_slots_taken,
}
use ldktela.Rooms.Ledger.{held}
use ldktela.Rooms.Ceilings.{Call, claims, leaves, run, publisher_slots_taken-run}
use ldktela.Rooms.Claims.{Fits, claim_publications-granted, holds-claim, claim_publications-renewed}

-- Two screens at most: users 1 and 2 take them, 3 is refused, 1 leaves.
abbrev evening : List Call
evening =
    claims 900 1 (screen ∷ camera ∷ [])
    ∷ claims 900 2 (screen ∷ [])
    ∷ claims 900 3 (screen ∷ [])
    ∷ leaves 900 1
    ∷ []

abbrev one_screen : Rooms
one_screen = new 1 4

publisher_slots_taken-run_example :
    publisher_slots_taken (run (new 2 4) evening) 900 screen ≤ ceiling (new 2 4) screen
publisher_slots_taken-run_example = publisher_slots_taken-run 2 4 evening 900 screen

claim_publications-granted_example :
    ((claim_publications one_screen 900 1 (screen ∷ [])).1 ≡ granted) ↔ (
      (source : PublicationSource)
      → wants (screen ∷ []) source ≡ true
      → Fits one_screen (room_of one_screen 900) 1 source)
claim_publications-granted_example = claim_publications-granted one_screen 900 1 (screen ∷ [])

holds-claim_example :
    Set.contains 1
      (held (claim_publications one_screen 900 1 (screen ∷ [])).0.publisher_grants 900 screen)
    ≡ (if not (exceeds one_screen (room_of one_screen 900) 1 (screen ∷ [])) && 900 == 900 && 1 == 1
        then wants (screen ∷ []) screen
        else Set.contains 1 (held one_screen.publisher_grants 900 screen))
holds-claim_example = holds-claim one_screen 900 1 (screen ∷ []) 900 screen 1

claim_publications-renewed_example :
    (claim_publications (claim_publications one_screen 900 1 (screen ∷ [])).0 900 1 (screen ∷ [])).1
    ≡ granted
unfolding claim_publications exceeds Set.contains holders room_of get new ceiling
claim_publications-renewed_example = claim_publications-renewed one_screen 900 1 (screen ∷ []) refl

-- UUIDs in a stand-in: a number as so many letters.
abbrev letters : ℕ → Text
letters zero = []
letters (suc n) = 0x61 ∷ letters n

abbrev count_letters : Text → Option ℕ
count_letters cs = some (length cs)

letters_plain : (u : ℕ) → NoTilde (letters u)
letters_plain zero = tt
letters_plain (suc u) = (refl, letters_plain u)

letters_read : (u : ℕ) → count_letters (letters u) ≡ some u
letters_read zero = refl
letters_read (suc u) = ap some (ap suc (some-injective _ _ (letters_read u)))

negative_channel : channel_of_room (room_name (negsuc 41)) ≡ some (negsuc 41)
unfolding channel_of_room room_name room_prefix strip_prefix print_i64 parse_signed negated
    print_nat parse_nat digits
negative_channel = refl

user_of-publisher_identity_example :
    let watching : WebhookEvent = record {
      event = [];
      room = some (room_name (pos 1_234_567));
      participant_identity = some (letters 3);
      track_source = none;
    } in
    let sharing : WebhookEvent = record {
      event = [];
      room = some (room_name (pos 1_234_567));
      participant_identity = some (publisher_identity letters count_letters 3);
      track_source = none;
    } in
    (channel watching ≡ some (pos 1_234_567))
    × (user_of letters count_letters watching ≡ some 3)
    × (is_publisher_connection watching ≡ false)
    × (user_of letters count_letters sharing ≡ some 3)
    × (is_publisher_connection sharing ≡ true)
user_of-publisher_identity_example =
    user_of-publisher_identity letters count_letters letters_plain letters_read (pos 1_234_567) 3 []
      none (omega arith)
