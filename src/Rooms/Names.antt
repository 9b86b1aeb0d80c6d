-- ===== src/Rooms/Names.antt =====
-- Names of rooms and of connections: crates/api/src/livekit.rs. A string is the list of its characters.
--
-- Printing and reading a UUID are parameters. An `i64` is an integer between -2^63 and 2^63 - 1.
use ldktela.Base.{
  ◌>>=◌, ℕ, zero, suc, ◌+◌, ◌^◌, Bool, true, false, ◌&&◌, Option, none, some, List, [], ◌∷◌, ◌++◌,
  ◌==◌, if◌then◌else◌,
}
use mathlib.Core.Option
use ldktela.Base.Int.{ℤ, pos, negsuc}
use ldktela.Base.Decimal.{parse_nat, print_nat}
use ldktela.Protocol.{PublicationSource, screen, camera}

abbrev pub Text : Type 0
Text = List ℕ

-- An `i64` has at most 19 digits.
unfoldable pub print_i64 : ℤ → Text
print_i64 (pos n) = print_nat 19 n
print_i64 (negsuc n) = 0x2d ∷ print_nat 19 (suc n)

unfoldable pub negated : ℕ → ℤ
negated zero = pos 0
negated (suc n) = negsuc n

unfoldable pub parse_signed : Text → Option ℤ
parse_signed [] = none
parse_signed (c ∷ cs) =
    if c == 0x2d
    then Option.map negated (parse_nat (2 ^ 63 + 1) cs)
    else if c == 0x2b
    then Option.map pos (parse_nat (2 ^ 63) cs)
    else Option.map pos (parse_nat (2 ^ 63) (c ∷ cs))

unfoldable pub strip_prefix : Text → Text → Option Text
strip_prefix [] cs = some cs
strip_prefix (p ∷ ps) [] = none
strip_prefix (p ∷ ps) (c ∷ cs) = let rest = strip_prefix ps cs in if c == p then rest else none

unfoldable pub same_text : Text → Text → Bool
same_text [] [] = true
same_text [] (y ∷ ys) = false
same_text (x ∷ xs) [] = false
same_text (x ∷ xs) (y ∷ ys) = x == y && same_text xs ys

-- The shortest front that leaves exactly the suffix behind.
unfoldable pub strip_suffix : Text → Text → Option Text
strip_suffix suffix [] = if same_text suffix [] then some [] else none
strip_suffix suffix (c ∷ cs) =
    let rest = strip_suffix suffix cs in
    if same_text suffix (c ∷ cs) then some [] else Option.map (λ front. c ∷ front) rest

-- "dvc-" and "~pub"
unfoldable pub room_prefix : Text
room_prefix = 0x64 ∷ 0x76 ∷ 0x63 ∷ 0x2d ∷ []

unfoldable pub publisher_suffix : Text
publisher_suffix = 0x7e ∷ 0x70 ∷ 0x75 ∷ 0x62 ∷ []

unfoldable pub room_name : ℤ → Text
room_name channel = room_prefix ++ print_i64 channel

unfoldable pub channel_of_room : Text → Option ℤ
channel_of_room room = do digits ← strip_prefix room_prefix room; parse_signed digits

pub record WebhookEvent : Type 0 where
  pub event : Text
  pub room : Option Text
  pub participant_identity : Option Text
  pub track_source : Option Text

unfoldable pub channel : WebhookEvent → Option ℤ
channel event = event.room >>= channel_of_room

unfoldable pub without_suffix : Text → Text
without_suffix identity = elim (strip_suffix publisher_suffix identity) [
  | none ↦ identity
  | some front ↦ front
]

unfoldable pub is_publisher_connection : WebhookEvent → Bool
is_publisher_connection event = elim event.participant_identity [
  | none ↦ false
  | some id ↦ elim (strip_suffix publisher_suffix id) [ none ↦ false | some front ↦ true ]
]

-- "screen_share" and "camera"
unfoldable pub published_source : WebhookEvent → Option PublicationSource
published_source event = elim event.track_source [
  | none ↦ none
  | some source ↦
      if same_text source
        (0x73 ∷ 0x63 ∷ 0x72 ∷ 0x65 ∷ 0x65 ∷ 0x6e ∷ 0x5f ∷ 0x73 ∷ 0x68 ∷ 0x61 ∷ 0x72 ∷ 0x65 ∷ [])
      then some screen
      else if same_text source (0x63 ∷ 0x61 ∷ 0x6d ∷ 0x65 ∷ 0x72 ∷ 0x61 ∷ [])
      then some camera
      else none
]

module _ (print : ℕ → Text) (parse : Text → Option ℕ) where
  unfoldable pub publisher_identity : ℕ → Text
  publisher_identity user = print user ++ publisher_suffix

  unfoldable pub user_of : WebhookEvent → Option ℕ
  user_of event = event.participant_identity >>= λ identity. parse (without_suffix identity)
