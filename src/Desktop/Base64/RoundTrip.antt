-- ===== src/Desktop/Base64/RoundTrip.antt =====
-- Base64 text is read back, against a decoder written from RFC 4648.
use ldktela.Base.{
  ℕ, zero, suc, ◌+◌, ◌-◌, ◌*◌, ◌/◌, ◌%◌, ◌^◌, ◌<◌, ◌≡◌, refl, sym, ap, ◌∙◌, Bool, true, false, ◌&&◌,
  List, [], ◌∷◌, ◌++◌, ◌==◌, leb, length, length-append, if◌then◌else◌, arith, ◌⊎◌, inl, inr,
}
use mathlib.Core.List.{append-nil, append_assoc}
use ldktela.Desktop.Base64.{alphabet, byte_at, symbol, pad, triple, chunk_text, base64_into}

abbrev pub IsBytes : List ℕ → Type 0
IsBytes [] = Unit
IsBytes (b ∷ bytes) = (b < 256) × IsBytes bytes

-- The value of a character, 64 for one outside the alphabet.
unfoldable pub value_of : ℕ → ℕ
value_of c =
    if leb 65 c && leb c 90
    then c - 65
    else if leb 97 c && leb c 122
    then c - 71
    else if leb 48 c && leb c 57
    then c + 4
    else if c == 43
    then 62
    else if c == 47
    then 63
    else 64

-- What four characters stand for: a pad in the last place, or in the last two, shortens it.
unfoldable pub quad_bytes : ℕ → ℕ → ℕ → ℕ → List ℕ
quad_bytes p q r s =
    let first : ℕ = value_of p * 4 + value_of q / 16 in
    let second : ℕ = value_of q % 16 * 16 + value_of r / 4 in
    let third : ℕ = value_of r % 4 * 64 + value_of s in
    if r == pad
    then first ∷ []
    else if s == pad
    then first ∷ second ∷ []
    else first ∷ second ∷ third ∷ []

unfoldable pub decode : List ℕ → List ℕ
decode (p ∷ q ∷ r ∷ s ∷ text) = quad_bytes p q r s ++ decode text
decode _ = []

holds_below : ℕ → (ℕ → Bool) → Bool
holds_below zero p = true
holds_below (suc n) p = holds_below n p && p n

holds_below-lt : (n : ℕ) (p : ℕ → Bool) → holds_below n p ≡ true → (i : ℕ) → i < n → p i ≡ true
unfolding holds_below
holds_below-lt zero p h i lt = absurd (omega arith)
holds_below-lt (suc n) p h i lt = elim (last_or_less i lt) [
  | inl below ↦ holds_below-lt n p (ground arith) i below
  | inr e ↦ rw e (ground arith)
]
  where
    last_or_less : (i : ℕ) → i < suc n → (i < n) ⊎ (i ≡ n)
    last_or_less i lt = ground arith

checked : ℕ → Bool
checked i = value_of (byte_at i alphabet) == i

all_checked : holds_below 64 checked ≡ true
unfolding holds_below checked value_of byte_at alphabet
all_checked = refl

value_of-symbol : (index : ℕ) → value_of (symbol index) ≡ index % 64
unfolding symbol checked
value_of-symbol index =
    let h = holds_below-lt 64 checked all_checked (index % 64) (omega arith) in ground arith

value_of-pad : value_of pad ≡ 64
unfolding value_of
value_of-pad = refl

symbol_no_pad : (index : ℕ) → (symbol index == pad) ≡ false
symbol_no_pad index = ground (arith, value_of-symbol index, value_of-pad, ap value_of)

first_byte : (t : ℕ) → t < 2 ^ 24 → t / 2 ^ 18 % 64 * 4 + t / 2 ^ 12 % 64 / 16 ≡ t / 2 ^ 16
first_byte t h = omega arith

second_byte : (t : ℕ) → t / 2 ^ 12 % 64 % 16 * 16 + t / 2 ^ 6 % 64 / 4 ≡ t / 2 ^ 8 % 256
second_byte t = omega arith

third_byte : (t : ℕ) → t / 2 ^ 6 % 64 % 4 * 64 + t % 64 ≡ t % 256
third_byte t = omega arith

decode_three :
    (a b c : ℕ) (rest : List ℕ)
    → a < 256
    → b < 256
    → c < 256
    → decode (chunk_text (a ∷ b ∷ c ∷ []) ++ rest) ≡ a ∷ b ∷ c ∷ decode rest
unfolding decode chunk_text quad_bytes triple byte_at
decode_three a b c rest ha hb hc =
    let t : ℕ = a * 2 ^ 16 + b * 2 ^ 8 + c in
    rw
      (
        symbol_no_pad (t / 2 ^ 6),
        symbol_no_pad t,
        value_of-symbol (t / 2 ^ 18),
        value_of-symbol (t / 2 ^ 12),
        value_of-symbol (t / 2 ^ 6),
        value_of-symbol t,
        first_byte t (omega arith),
        second_byte t,
        third_byte t,
      )
      (ground arith)

decode_two : (a b : ℕ) → a < 256 → b < 256 → decode (chunk_text (a ∷ b ∷ [])) ≡ a ∷ b ∷ []
unfolding decode chunk_text quad_bytes triple byte_at
decode_two a b ha hb =
    let t : ℕ = a * 2 ^ 16 + b * 2 ^ 8 + 0 in
    rw
      (
        symbol_no_pad (t / 2 ^ 6),
        value_of-symbol (t / 2 ^ 18),
        value_of-symbol (t / 2 ^ 12),
        value_of-symbol (t / 2 ^ 6),
        first_byte t (omega arith),
        second_byte t,
      )
      (ground arith)

decode_one : (a : ℕ) → a < 256 → decode (chunk_text (a ∷ [])) ≡ a ∷ []
unfolding decode chunk_text quad_bytes triple byte_at
decode_one a ha =
    let t : ℕ = a * 2 ^ 16 + 0 * 2 ^ 8 + 0 in
    rw (value_of-symbol (t / 2 ^ 18), value_of-symbol (t / 2 ^ 12), first_byte t (omega arith))
      (ground arith)

length-chunk_text : (chunk : List ℕ) → length (chunk_text chunk) ≡ 4
unfolding chunk_text
length-chunk_text chunk = refl

-- What is appended to `out` reads back as the bytes, and is as long as the room that was reserved: four
-- characters for every three bytes, or part of three.
pub decode-base64_into :
    (bytes out : List ℕ)
    → IsBytes bytes
    → (text : List ℕ) × (base64_into bytes out ≡ out ++ text)
      × (decode text ≡ bytes)
      × (length text ≡ (length bytes + 2) / 3 * 4)
unfolding base64_into
decode-base64_into [] out h = ([], sym (append-nil out), unfold decode in refl, omega arith)
decode-base64_into (a ∷ []) out h =
    (chunk_text (a ∷ []), refl, decode_one a h.0, length-chunk_text (a ∷ []))
decode-base64_into (a ∷ b ∷ []) out h =
    (chunk_text (a ∷ b ∷ []), refl, decode_two a b h.0 h.1.0, length-chunk_text (a ∷ b ∷ []))
decode-base64_into (a ∷ b ∷ c ∷ bytes) out (ha, (hb, (hc, hs))) =
    let front : List ℕ = chunk_text (a ∷ b ∷ c ∷ []) in
    let (text, appended, read, long) = decode-base64_into bytes (out ++ front) hs in
    (
      front ++ text,
      appended ∙ append_assoc out front text,
      decode_three a b c text ha hb hc ∙ ap (λ (r : List ℕ). a ∷ b ∷ c ∷ r) read,
      omega (arith, length-append front text, length-chunk_text (a ∷ b ∷ c ∷ []), long),
    )
