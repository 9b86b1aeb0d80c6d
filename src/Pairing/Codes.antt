-- ===== src/Pairing/Codes.antt =====
-- A pairing code works once, and house-keeping takes none away (crates/db/src/repo/pairing.rs,
-- crates/domain/src/pairing.rs).
use ldktela.Base.{
  ℕ, ◌-◌, ◌≤◌, ◌<◌, ◌≡◌, refl, ◌∙◌, true, none, List, [], ◌∷◌, length, map, all, any, ltb, ◌==◌,
  arith,
}
use ldktela.Pairing.{
  PairingRow, consumable, consume_rows, returned, consume, delete_expired, pairing_code_alphabet,
  pairing_code, symbol_at, generate,
}

returned-again :
    (rows : List PairingRow) (code_hash now later : ℕ)
    → now ≤ later
    → returned (consume_rows rows code_hash now) code_hash later ≡ none
unfolding returned consume_rows consumable
returned-again [] code_hash now later h = refl
returned-again (r ∷ rows) code_hash now later h =
    ground (arith, returned-again rows code_hash now later h)

-- A code that was presented, whatever came of it, gives nothing when it is presented again, then or
-- later, where no code is issued in between.
pub consume-again :
    (rows : List PairingRow) (code_hash now later : ℕ)
    → now ≤ later
    → (consume (consume rows code_hash now).0 code_hash later).1 ≡ none
unfolding consume
consume-again rows code_hash now later h = returned-again rows code_hash now later h

returned-delete :
    (rows : List PairingRow) (code_hash now later : ℕ)
    → now ≤ later
    → returned (delete_expired rows now) code_hash later ≡ returned rows code_hash later
unfolding returned delete_expired consumable
returned-delete [] code_hash now later h = refl
returned-delete (r ∷ rows) code_hash now later h =
    ground (arith, returned-delete rows code_hash now later h)

-- The clean-up never takes away a code that could still be used: what any code gives, then or later,
-- is what it would have given without the clean-up.
pub consume-delete_expired :
    (rows : List PairingRow) (code_hash now later : ℕ)
    → now ≤ later
    → (consume (delete_expired rows now) code_hash later).1 ≡ (consume rows code_hash later).1
unfolding consume
consume-delete_expired rows code_hash now later h = returned-delete rows code_hash now later h

symbol_at-any :
    (symbols : List ℕ) (i : ℕ)
    → i < length symbols
    → any (λ a. a == symbol_at symbols i) symbols ≡ true
unfolding symbol_at
symbol_at-any [] i h = absurd (omega arith)
symbol_at-any (a ∷ symbols) i h = ground (arith, symbol_at-any symbols (i - 1))

-- For any alphabet.
drawn-all :
    (symbols : List ℕ) (drawn : List ℕ)
    → all (λ i. ltb i (length symbols)) drawn ≡ true
    → all (λ b. any (λ a. a == b) symbols) (map (symbol_at symbols) drawn) ≡ true
drawn-all symbols [] h = refl
drawn-all symbols (i ∷ drawn) h = ground (arith, symbol_at-any symbols i, drawn-all symbols drawn)

length-drawn : (f : ℕ → ℕ) (drawn : List ℕ) → length (map f drawn) ≡ length drawn
length-drawn f [] = refl
length-drawn f (i ∷ drawn) = ground (arith, length-drawn f drawn)

pairing_code-shape :
    (code : List ℕ)
    → length code ≡ 8
    → all (λ b. any (λ a. a == b) pairing_code_alphabet) code ≡ true
    → pairing_code code ≡ none
unfolding pairing_code
pairing_code-shape [] l h = absurd (omega arith)
pairing_code-shape (c ∷ cs) l h = rw (l, h) refl

-- Every code that is drawn from the alphabet, eight symbols by indices below its length, passes the
-- check of what clients send.
pub pairing_code-generate :
    (drawn : List ℕ)
    → length drawn ≡ 8
    → all (λ i. ltb i (length pairing_code_alphabet)) drawn ≡ true
    → pairing_code (generate drawn) ≡ none
unfolding generate
pairing_code-generate drawn l h =
    pairing_code-shape (map (symbol_at pairing_code_alphabet) drawn)
      (length-drawn (symbol_at pairing_code_alphabet) drawn ∙ l)
      (drawn-all pairing_code_alphabet drawn h)
