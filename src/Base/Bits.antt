-- ===== src/Base/Bits.antt =====
-- Bits of a machine word. A `u64` is a number below 2 ^ 64; `test i a` says whether bit i of `a` is
-- set. The libraries state no law of `bit_and` and `bit_or` at variables: here is the law of each at
-- one bit, by way of the digit recursion that the native operations stand for.
use Prim.Native.Nat.{min, max, bit_and, bit_or, digits, bit_and-bitwise, bit_or-bitwise}
use native.Mathlib.Nat.{pow-suc}
use ldktela.Base.{
  ℕ, zero, suc, ◌+◌, ◌-◌, ◌*◌, ◌/◌, ◌%◌, ◌^◌, ◌≤◌, ◌<◌, ◌≡◌, refl, sym, ap, ◌∙◌, Bool, true, not,
  ◌&&◌, ◌||◌, ◌==◌, if◌then◌else◌, arith,
}

unfoldable pub test : ℕ → ℕ → Bool
test zero a = a % 2 == 1
test (suc i) a = test i (a / 2)

-- `!a` on a word of w bits.
unfoldable pub complement : ℕ → ℕ → ℕ
complement w a = 2 ^ w - 1 - a

pow-pos : (i : ℕ) → 0 < 2 ^ i
pow-pos zero = omega arith
pow-pos (suc i) = omega (arith, pow-suc 2 i, pow-pos i)

-- The digit recursion, for an operation `op` on digits and the rest `tail` once `a` is used up.
module _ (tail : ℕ → ℕ) (op : ℕ → ℕ → ℕ)
    (tail_step : (b : ℕ) → tail b ≡ tail (b / 2) * 2 + op 0 (b % 2)) where
  -- Fuel above the first argument changes nothing.
  enough_fuel :
      (bound fuel x y : ℕ)
      → x ≤ fuel
      → fuel ≤ bound
      → digits tail op fuel x y ≡ digits tail op x x y
  enough_fuel bound zero zero y hx hf = refl
  enough_fuel bound (suc fuel) zero y hx hf = refl
  enough_fuel bound zero (suc x) y hx hf = absurd (omega arith)
  enough_fuel zero (suc fuel) (suc x) y hx hf = absurd (omega arith)
  enough_fuel (suc bound) (suc fuel) (suc x) y hx hf =
      let half : ℕ = suc x / 2 in
      let from_fuel = enough_fuel bound fuel half (y / 2) (omega arith) (omega arith) in
      let from_self = enough_fuel bound x half (y / 2) (omega arith) (omega arith) in
      ap (λ (t : ℕ). t * 2 + op (suc x % 2) (y % 2)) (from_fuel ∙ sym from_self)

  digits_step :
      (x y : ℕ)
      → digits tail op x x y ≡ digits tail op (x / 2) (x / 2) (y / 2) * 2 + op (x % 2) (y % 2)
  digits_step zero y = tail_step y
  digits_step (suc x) y =
      ap (λ (t : ℕ). t * 2 + op (suc x % 2) (y % 2))
        (enough_fuel x x (suc x / 2) (y / 2) (omega arith) (omega arith))

min_tail : (b : ℕ) → ◌≡◌ {A = ℕ} 0 (0 * 2 + min 0 (b % 2))
min_tail b = omega arith

max_tail : (b : ℕ) → b ≡ b / 2 * 2 + max 0 (b % 2)
max_tail b = omega arith

bit_and_step : (a b : ℕ) → bit_and a b ≡ bit_and (a / 2) (b / 2) * 2 + min (a % 2) (b % 2)
bit_and_step a b = omega (
  arith,
  bit_and-bitwise a b,
  bit_and-bitwise (a / 2) (b / 2),
  digits_step (λ b. zero) min min_tail a b,
)

bit_or_step : (a b : ℕ) → bit_or a b ≡ bit_or (a / 2) (b / 2) * 2 + max (a % 2) (b % 2)
bit_or_step a b = omega (
  arith,
  bit_or-bitwise a b,
  bit_or-bitwise (a / 2) (b / 2),
  digits_step (λ b. b) max max_tail a b,
)

low_bit : (q : ℕ) {r : ℕ} → r < 2 → (q * 2 + r) / 2 ≡ q
low_bit q h = omega arith

pub test-bit_and : (i a b : ℕ) → test i (bit_and a b) ≡ (test i a && test i b)
unfolding test
test-bit_and zero a b = ground (arith, bit_and_step a b)
test-bit_and (suc i) a b =
    rw (bit_and_step a b, low_bit (bit_and (a / 2) (b / 2)) {r = min (a % 2) (b % 2)} (omega arith))
      (test-bit_and i (a / 2) (b / 2))

pub test-bit_or : (i a b : ℕ) → test i (bit_or a b) ≡ (test i a || test i b)
unfolding test
test-bit_or zero a b = ground (arith, bit_or_step a b)
test-bit_or (suc i) a b =
    rw (bit_or_step a b, low_bit (bit_or (a / 2) (b / 2)) {r = max (a % 2) (b % 2)} (omega arith))
      (test-bit_or i (a / 2) (b / 2))

complement_step :
    (w a : ℕ)
    → a < 2 ^ suc w
    → (complement (suc w) a / 2 ≡ complement w (a / 2))
      × (complement (suc w) a % 2 ≡ 1 - a % 2)
      × (a / 2 < 2 ^ w)
unfolding complement
complement_step w a h = omega (arith, pow-suc 2 w)

pub test-complement : (w i a : ℕ) → i < w → a < 2 ^ w → test i (complement w a) ≡ not (test i a)
unfolding test
test-complement zero i a h lt = absurd (omega arith)
test-complement (suc w) zero a h lt = ground (arith, complement_step w a lt)
test-complement (suc w) (suc i) a h lt =
    let (half, parity, fits) = complement_step w a lt in
    rw half (test-complement w i (a / 2) (omega arith) fits)

-- What two words share is below both.
bit_and-below : (bound x y : ℕ) → x ≤ bound → (bit_and x y ≤ x) × (bit_and x y ≤ y)
bit_and-below bound zero y h =
    (omega (arith, bit_and-bitwise 0 y), omega (arith, bit_and-bitwise 0 y))
bit_and-below zero (suc x) y h = absurd (omega arith)
bit_and-below (suc bound) (suc x) y h =
    let (left, right) = bit_and-below bound (suc x / 2) (y / 2) (omega arith) in
    let step = bit_and_step (suc x) y in (omega arith, omega arith)

bit_and-zero : (x : ℕ) → bit_and x 0 ≡ 0
bit_and-zero x = omega (arith, (bit_and-below x x 0 (omega arith)).1)

-- A mask of one bit keeps that bit.
bit_and-pow : (i a : ℕ) → bit_and a (2 ^ i) ≡ (if test i a then 2 ^ i else 0)
unfolding test
bit_and-pow zero a = ground (arith, bit_and_step a 1, bit_and-zero (a / 2))
bit_and-pow (suc i) a =
    ground (arith, bit_and_step a (2 ^ suc i), pow-suc 2 i, bit_and-pow i (a / 2))

-- `a & (1 << i) == (1 << i)` is the test of bit i.
pub contains_bit : (i a : ℕ) → (bit_and a (2 ^ i) == 2 ^ i) ≡ test i a
contains_bit i a = ground (arith, bit_and-pow i a, pow-pos i)

pub all_ones : (w i : ℕ) → i < w → test i (2 ^ w - 1) ≡ true
unfolding test
all_ones zero i h = absurd (omega arith)
all_ones (suc w) zero h = ground (arith, pow-suc 2 w, pow-pos w)
all_ones (suc w) (suc i) h =
    let half : (2 ^ suc w - 1) / 2 ≡ 2 ^ w - 1 = omega (arith, pow-suc 2 w, pow-pos w) in
    rw half (all_ones w i (omega arith))

pub bit_or-lt : (w a b : ℕ) → a < 2 ^ w → b < 2 ^ w → bit_or a b < 2 ^ w
bit_or-lt zero a b ha hb =
    let za : a ≡ 0 = omega arith in let zb : b ≡ 0 = omega arith in rw (za, zb) (omega arith)
bit_or-lt (suc w) a b ha hb = omega (
  arith,
  bit_or_step a b,
  pow-suc 2 w,
  bit_or-lt w (a / 2) (b / 2) (omega (arith, pow-suc 2 w)) (omega (arith, pow-suc 2 w)),
)

bits_tail :
    (w a b : ℕ)
    → ((i : ℕ) → i < suc w → test i a ≡ test i b)
    → (i : ℕ) → i < w
    → test i (a / 2) ≡ test i (b / 2)
unfolding test
bits_tail w a b h i lt = h (suc i) (omega arith)

bits_head : (a b : ℕ) → test 0 a ≡ test 0 b → a % 2 ≡ b % 2
unfolding test
bits_head a b h = ground arith

-- Two words with the same bits are equal.
pub word_ext : (w a b : ℕ) → a < 2 ^ w → b < 2 ^ w → ((i : ℕ) → i < w → test i a ≡ test i b) → a ≡ b
word_ext zero a b ha hb h = omega arith
word_ext (suc w) a b ha hb h =
    let tails =
      word_ext w (a / 2) (b / 2) (omega (arith, pow-suc 2 w)) (omega (arith, pow-suc 2 w))
        (bits_tail w a b h) in
    omega (arith, tails, bits_head a b (h 0 (omega arith)))

pub bit_and-le_left : (a b : ℕ) → bit_and a b ≤ a
bit_and-le_left a b = (bit_and-below a a b (omega arith)).0
