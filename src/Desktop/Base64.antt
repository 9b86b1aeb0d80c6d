-- ===== src/Desktop/Base64.antt =====
-- `base64_into` of desktop/src-tauri/src/preview.rs. Text is the list of its characters, each a code
-- point; a byte is a number below 256.
--
-- `|` of numbers that share no bit is their sum, `<< n` and `>> n` are by 2 ^ n, and `& 63` is the rest
-- by 64. Three bytes are below 2 ^ 24, so nothing is lost in a `u32`.
pub mod RoundTrip
mod Tests
use mathlib.Core.Option
use ldktela.Base.{
  ℕ, zero, suc, ◌+◌, ◌*◌, ◌/◌, ◌%◌, ◌^◌, Option, none, some, ◌&&◌, List, [], ◌∷◌, ◌++◌, ltb, length,
  if◌then◌else◌,
}

unfoldable pub alphabet : List ℕ
alphabet =
    65 ∷ 66 ∷ 67 ∷ 68 ∷ 69 ∷ 70 ∷ 71 ∷ 72 ∷ 73 ∷ 74 ∷ 75 ∷ 76 ∷ 77 ∷ 78 ∷ 79 ∷ 80 ∷ 81 ∷ 82 ∷ 83
    ∷ 84 ∷ 85 ∷ 86 ∷ 87 ∷ 88 ∷ 89 ∷ 90 ∷ 97 ∷ 98 ∷ 99 ∷ 100 ∷ 101 ∷ 102 ∷ 103 ∷ 104 ∷ 105 ∷ 106
    ∷ 107 ∷ 108 ∷ 109 ∷ 110 ∷ 111 ∷ 112 ∷ 113 ∷ 114 ∷ 115 ∷ 116 ∷ 117 ∷ 118 ∷ 119 ∷ 120 ∷ 121 ∷ 122
    ∷ 48 ∷ 49 ∷ 50 ∷ 51 ∷ 52 ∷ 53 ∷ 54 ∷ 55 ∷ 56 ∷ 57 ∷ 43 ∷ 47 ∷ []

-- The entry at an index, 0 where there is none.
unfoldable pub byte_at : ℕ → List ℕ → ℕ
byte_at n [] = 0
byte_at zero (x ∷ xs) = x
byte_at (suc n) (x ∷ xs) = byte_at n xs

-- `ALPHABET[index & 63]`
unfoldable pub symbol : ℕ → ℕ
symbol index = byte_at (index % 64) alphabet

abbrev pub pad : ℕ
pad = 0x3d

unfoldable pub triple : List ℕ → ℕ
triple chunk = byte_at 0 chunk * 2 ^ 16 + byte_at 1 chunk * 2 ^ 8 + byte_at 2 chunk

-- The four characters of a chunk of one byte to three.
unfoldable pub chunk_text : List ℕ → List ℕ
chunk_text chunk =
    symbol (triple chunk / 2 ^ 18)
    ∷ symbol (triple chunk / 2 ^ 12)
    ∷ (if ltb 1 (length chunk) then symbol (triple chunk / 2 ^ 6) else pad)
    ∷ (if ltb 2 (length chunk) then symbol (triple chunk) else pad)
    ∷ []

unfoldable pub base64_into : List ℕ → List ℕ → List ℕ
base64_into [] out = out
base64_into (a ∷ []) out = out ++ chunk_text (a ∷ [])
base64_into (a ∷ b ∷ []) out = out ++ chunk_text (a ∷ b ∷ [])
base64_into (a ∷ b ∷ c ∷ bytes) out = base64_into bytes (out ++ chunk_text (a ∷ b ∷ c ∷ []))

-- A frame of the preview, as the JPEG encoder takes it.
pub record Frame : Type 0 where
  pub width : ℕ
  pub height : ℕ
  pub quality : ℕ
  pub pixels : List ℕ

-- "data:image/jpeg;base64,"
unfoldable pub data_url : List ℕ
data_url =
    100 ∷ 97 ∷ 116 ∷ 97 ∷ 58 ∷ 105 ∷ 109 ∷ 97 ∷ 103 ∷ 101 ∷ 47 ∷ 106 ∷ 112 ∷ 101 ∷ 103 ∷ 59 ∷ 98
    ∷ 97 ∷ 115 ∷ 101 ∷ 54 ∷ 52 ∷ 44 ∷ []

-- The JPEG encoder is a parameter, none where it fails. Sides are converted to `u16` first.
unfoldable pub encode_data_url : (Frame → Option (List ℕ)) → Frame → Option (List ℕ)
encode_data_url encode frame =
    if ltb frame.width (2 ^ 16) && ltb frame.height (2 ^ 16)
    then Option.map (λ jpeg. base64_into jpeg data_url) (encode frame)
    else none
