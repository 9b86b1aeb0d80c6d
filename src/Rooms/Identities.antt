-- ===== src/Rooms/Identities.antt =====
-- What a webhook event says of rooms and people, of crates/api/src/livekit.rs, is what the names were made from.
use ldktela.Base.{
  ℕ, suc, ◌+◌, ◌^◌, ◌<◌, ◌≡◌, refl, ap, ◌∙◌, true, false, Option, none, some, [], ◌∷◌, ◌++◌, ◌==◌,
  arith,
}
use mathlib.Core.Option
use ldktela.Base.Int.{ℤ, pos, negsuc}
use ldktela.Base.Decimal.{parse_nat, print_nat_head, parse_nat-print_nat}
use ldktela.Rooms.Names.{
  Text, print_i64, negated, parse_signed, strip_prefix, same_text, strip_suffix, room_prefix,
  publisher_suffix, room_name, channel_of_room, WebhookEvent, channel, without_suffix,
  is_publisher_connection, publisher_identity, user_of,
}

abbrev pub IsI64 : ℤ → Type 0
IsI64 (pos n) = n < 2 ^ 63
IsI64 (negsuc n) = n < 2 ^ 63

-- No character is a tilde.
abbrev pub NoTilde : Text → Type 0
NoTilde [] = Unit
NoTilde (c ∷ cs) = ((c == 0x7e) ≡ false) × NoTilde cs

parse_signed-digit :
    (d : ℕ) (rest : Text)
    → d < 10
    → parse_signed ((0x30 + d) ∷ rest) ≡ Option.map pos (parse_nat (2 ^ 63) ((0x30 + d) ∷ rest))
unfolding parse_signed
parse_signed-digit d rest h = ground arith

parse_signed-print_i64 : (c : ℤ) → IsI64 c → parse_signed (print_i64 c) ≡ some c
unfolding print_i64 parse_signed negated
parse_signed-print_i64 (pos n) h =
    let (d, rest, small, form) = print_nat_head 19 n in
    let read = rw form at (parse_nat-print_nat 19 (2 ^ 63) n (omega arith) h) in
    rw (form, parse_signed-digit d rest small, read) refl
parse_signed-print_i64 (negsuc n) h =
    rw (parse_nat-print_nat 19 (2 ^ 63 + 1) (suc n) (omega arith) (omega arith)) refl

strip_prefix-append : (ps cs : Text) → strip_prefix ps (ps ++ cs) ≡ some cs
unfolding strip_prefix
strip_prefix-append [] cs = refl
strip_prefix-append (p ∷ ps) cs = ground (arith, strip_prefix-append ps cs)

channel_of_room-room_name : (c : ℤ) → IsI64 c → channel_of_room (room_name c) ≡ some c
unfolding channel_of_room room_name
channel_of_room-room_name c h =
    rw (strip_prefix-append room_prefix (print_i64 c)) (parse_signed-print_i64 c h)

no_suffix_here :
    (c : ℕ) (cs : Text) → (c == 0x7e) ≡ false → same_text publisher_suffix (c ∷ cs) ≡ false
unfolding same_text publisher_suffix
no_suffix_here c cs h = ground arith

strip_suffix-none : (cs : Text) → NoTilde cs → strip_suffix publisher_suffix cs ≡ none
unfolding strip_suffix same_text publisher_suffix
strip_suffix-none [] h = refl
strip_suffix-none (c ∷ cs) h =
    rw (strip_suffix, no_suffix_here c cs h.0, strip_suffix-none cs h.1) refl

strip_suffix-append :
    (cs : Text) → NoTilde cs → strip_suffix publisher_suffix (cs ++ publisher_suffix) ≡ some cs
unfolding strip_suffix same_text publisher_suffix
strip_suffix-append [] h = refl
strip_suffix-append (c ∷ cs) h =
    rw (strip_suffix, no_suffix_here c (cs ++ publisher_suffix) h.0, strip_suffix-append cs h.1)
      refl

without_suffix-plain : (cs : Text) → NoTilde cs → without_suffix cs ≡ cs
unfolding without_suffix
without_suffix-plain cs h = rw (without_suffix, strip_suffix-none cs h) refl

without_suffix-append : (cs : Text) → NoTilde cs → without_suffix (cs ++ publisher_suffix) ≡ cs
unfolding without_suffix
without_suffix-append cs h = rw (without_suffix, strip_suffix-append cs h) refl

-- A room's name gives back its channel, and both identities of a person, the plain one and the one that
-- publishes, give back the person and tell which connection it is. The channel is any `i64`; a UUID
-- is printed without a tilde and reads back.
pub user_of-publisher_identity :
    (print : ℕ → Text) (parse : Text → Option ℕ)
    → ((u : ℕ) → NoTilde (print u))
    → ((u : ℕ) → parse (print u) ≡ some u)
    → (c : ℤ) (user : ℕ) (name : Text) (track : Option Text) → IsI64 c
    → let watching : WebhookEvent = record {
      event = name;
      room = some (room_name c);
      participant_identity = some (print user);
      track_source = track;
    } in
      let sharing : WebhookEvent = record {
        event = name;
        room = some (room_name c);
        participant_identity = some (publisher_identity print parse user);
        track_source = track;
      } in
      (channel watching ≡ some c)
      × (user_of print parse watching ≡ some user)
      × (is_publisher_connection watching ≡ false)
      × (user_of print parse sharing ≡ some user)
      × (is_publisher_connection sharing ≡ true)
unfolding channel user_of is_publisher_connection publisher_identity
user_of-publisher_identity print parse plain reads c user name track h = (
  channel_of_room-room_name c h,
  ap parse (without_suffix-plain (print user) (plain user)) ∙ reads user,
  rw (is_publisher_connection, strip_suffix-none (print user) (plain user)) refl,
  ap parse (without_suffix-append (print user) (plain user)) ∙ reads user,
  rw (is_publisher_connection, publisher_identity, strip_suffix-append (print user) (plain user))
      refl,
)
