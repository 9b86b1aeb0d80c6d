-- ===== src/Desktop/Base64/Tests.antt =====
-- The examples of desktop/src-tauri/src/preview.rs, and the round trip at one of them.
use ldktela.Base.{ℕ, ◌≡◌, refl, List, [], ◌∷◌, ◌++◌, length, arith}
use ldktela.Desktop.Base64.{base64_into, chunk_text, triple, symbol, byte_at, alphabet}
use ldktela.Desktop.Base64.RoundTrip.{decode, decode-base64_into}

empty : base64_into [] [] ≡ []
unfolding base64_into
empty = refl

one_byte : base64_into (102 ∷ []) [] ≡ 90 ∷ 103 ∷ 61 ∷ 61 ∷ []
unfolding base64_into chunk_text triple symbol byte_at alphabet
one_byte = refl

two_bytes : base64_into (102 ∷ 111 ∷ []) [] ≡ 90 ∷ 109 ∷ 56 ∷ 61 ∷ []
unfolding base64_into chunk_text triple symbol byte_at alphabet
two_bytes = refl

six_bytes :
    base64_into (102 ∷ 111 ∷ 111 ∷ 98 ∷ 97 ∷ 114 ∷ []) []
    ≡ 90 ∷ 109 ∷ 57 ∷ 118 ∷ 89 ∷ 109 ∷ 70 ∷ 121 ∷ []
unfolding base64_into chunk_text triple symbol byte_at alphabet
six_bytes = refl

decode-base64_into_example :
    (text : List ℕ) × (base64_into (255 ∷ 0 ∷ 62 ∷ 7 ∷ []) (33 ∷ []) ≡ (33 ∷ []) ++ text)
    × (decode text ≡ 255 ∷ 0 ∷ 62 ∷ 7 ∷ [])
    × (length text ≡ 8)
decode-base64_into_example = decode-base64_into (255 ∷ 0 ∷ 62 ∷ 7 ∷ []) (33 ∷ []) (omega arith)
