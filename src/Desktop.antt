-- ===== src/Desktop.antt =====
-- The desktop application's own computations: desktop/src-tauri/src.
--
-- A byte slice is its length and its bytes; what lies behind the length is never read. An operation
-- that indexes or slices answers none where Rust panics. Sizes are `u32` and a pitch comes from a
-- signed 32-bit stride, so that the products of the source do not wrap in a 64-bit `usize`.
pub mod Convert
pub mod Base64
pub mod Sharing
pub mod Camera
use ldktela.Base.{
  ℕ, zero, suc, ◌+◌, ◌-◌, Bool, true, ◌&&◌, Option, none, some, leb, ltb, if◌then◌else◌,
}

pub record Size : Type 0 where
  pub width : ℕ
  pub height : ℕ

pub record Bytes : Type 0 where
  pub len : ℕ
  pub at : ℕ → ℕ

-- `b[lo..hi]`
unfoldable pub slice : Bytes → ℕ → ℕ → Option Bytes
slice b lo hi =
    if leb lo hi && leb hi b.len
    then some (record { len = hi - lo; at = λ i. b.at (lo + i) })
    else none

-- Bytes written from `lo` on, as `b[lo..lo + bytes.len()].copy_from_slice(bytes)` does.
unfoldable pub write_at : Bytes → ℕ → Bytes → Bytes
write_at b lo bytes = record {
  len = b.len;
  at = λ i. if leb lo i && ltb i (lo + bytes.len) then bytes.at (i - lo) else b.at i;
}

-- `copy_from_slice` into `b[lo..lo + room]`, of which only the first bytes may be written.
unfoldable pub put : Bytes → ℕ → ℕ → Bytes → Option Bytes
put b lo room bytes =
    if leb (lo + room) b.len && leb bytes.len room then some (write_at b lo bytes) else none

unfoldable pub in_range : ℕ → (ℕ → ℕ) → ℕ → Bool
in_range zero index len = true
in_range (suc n) index len = in_range n index len && ltb (index n) len

-- The bytes `b[index(0)]`, …, `b[index(n - 1)]`.
unfoldable pub gather : ℕ → (ℕ → ℕ) → Bytes → Option Bytes
gather n index b =
    if in_range n index b.len then some (record { len = n; at = λ i. b.at (index i) }) else none
