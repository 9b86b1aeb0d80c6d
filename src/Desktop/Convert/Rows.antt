-- ===== src/Desktop/Convert/Rows.antt =====
-- Row copies of desktop/src-tauri/src/camera/convert.rs: when they index past an end, and what they
-- leave in a plane.
use ldktela.Base.{
  ℕ, zero, suc, ◌+◌, ◌-◌, ◌*◌, ◌≤◌, ◌<◌, ◌≡◌, refl, ap, ◌∙◌, true, some, leb, arith, lt→ltb, ◌⊎◌,
  inl, inr,
}
use ldktela.Desktop.{Bytes, slice, write_at, put, in_range, gather}
use ldktela.Desktop.Convert.{copy_rows}

pub le→leb : (a b : ℕ) → a ≤ b → leb a b ≡ true
le→leb a b h = ground arith

pub slice-some :
    (b : Bytes) (lo hi : ℕ)
    → lo ≤ hi
    → hi ≤ b.len
    → slice b lo hi ≡ some (record { len = hi - lo; at = λ i. b.at (lo + i) })
unfolding slice
slice-some b lo hi p q = rw (le→leb lo hi p, le→leb hi b.len q) refl

pub put-some :
    (b : Bytes) (lo room : ℕ) (bytes : Bytes)
    → lo + room ≤ b.len
    → bytes.len ≤ room
    → put b lo room bytes ≡ some (write_at b lo bytes)
unfolding put
put-some b lo room bytes p q = rw (le→leb (lo + room) b.len p, le→leb bytes.len room q) refl

in_range-true :
    (n : ℕ) (index : ℕ → ℕ) (len : ℕ)
    → ((i : ℕ) → i < n → index i < len)
    → in_range n index len ≡ true
unfolding in_range
in_range-true zero index len h = refl
in_range-true (suc n) index len h =
    rw
      (
        in_range-true n index len (λ i p. h i (omega (arith, p))),
        lt→ltb (index n) len (h n (omega arith)),
      )
      refl

pub gather-some :
    (n : ℕ) (index : ℕ → ℕ) (b : Bytes)
    → ((i : ℕ) → i < n → index i < b.len)
    → gather n index b ≡ some (record { len = n; at = λ i. b.at (index i) })
unfolding gather
gather-some n index b h = rw (in_range-true n index b.len h) refl

-- The rows below `n` of a plane hold `pixel row column` in their first `width` bytes, the plane is as
-- long as `old`, and its other bytes are those of `old`.
pub record Filled (width step n : ℕ) (pixel : ℕ → ℕ → ℕ) (old new : Bytes) : Type 0 where
  pub same_len : new.len ≡ old.len
  pub pixels :
      (row column : ℕ) → row < n → column < width → new.at (row * step + column) ≡ pixel row column
  pub others :
      (i : ℕ)
      → ((row : ℕ) → row < n → (i < row * step) ⊎ (row * step + width ≤ i))
      → new.at i ≡ old.at i

pub Filled-zero :
    (width step : ℕ) (pixel : ℕ → ℕ → ℕ) (old : Bytes) → Filled width step 0 pixel old old
Filled-zero width step pixel old = record {
  same_len = refl;
  pixels = λ row column p q. absurd (omega arith);
  others = λ i h. refl;
}

inside :
    (b bytes : Bytes) (lo c : ℕ) → c < bytes.len → (write_at b lo bytes).at (lo + c) ≡ bytes.at c
unfolding write_at
inside b bytes lo c h =
    rw (le→leb lo (lo + c) (omega arith), lt→ltb (lo + c) (lo + bytes.len) (omega arith))
      (ap bytes.at (omega arith))

outside :
    (b bytes : Bytes) (lo i : ℕ)
    → (i < lo) ⊎ (lo + bytes.len ≤ i)
    → (write_at b lo bytes).at i ≡ b.at i
unfolding write_at
outside b bytes lo i h = ground arith

pub row_ends : (row n width step : ℕ) → row < n → width ≤ step → row * step + width ≤ n * step
row_ends row n width step p q = grind arith

pub Filled-suc :
    {width step n : ℕ} {pixel : ℕ → ℕ → ℕ} {old mid : Bytes} (bytes : Bytes)
    → width ≤ step
    → bytes.len ≡ width
    → ((c : ℕ) → c < width → bytes.at c ≡ pixel n c)
    → Filled width step n pixel old mid
    → Filled width step (suc n) pixel old (write_at mid (n * step) bytes)
unfolding write_at
Filled-suc {width} {step} {n} {pixel} {old} {mid} bytes fits len here filled = record {
  same_len = filled.same_len;
  pixels = λ row c p q. by_row row c q (last_or_less row p);
  others = λ i free.
      outside mid bytes (n * step) i (rw len (free n (omega arith)))
      ∙ filled.others i (λ row p. free row (omega (arith, p)));
}
  where
    last_or_less : (row : ℕ) → row < suc n → (row < n) ⊎ (row ≡ n)
    last_or_less row p = ground arith

    by_row :
        (row c : ℕ)
        → c < width
        → (row < n) ⊎ (row ≡ n)
        → (write_at mid (n * step) bytes).at (row * step + c) ≡ pixel row c
    by_row row c q (inl p) =
        outside mid bytes (n * step) (row * step + c)
          (inl (omega (arith, row_ends row n width step p fits, q)))
        ∙ filled.pixels row c p q
    by_row row c q (inr e) = rw e (inside mid bytes (n * step) c (omega (arith, len, q)) ∙ here c q)

-- The copy of rows within bounds.
pub copy_rows-Filled :
    (source : Bytes) (base pitch width step n rows : ℕ) (dst : Bytes)
    → width ≤ pitch
    → width ≤ step
    → n ≤ rows
    → base + pitch * rows ≤ source.len
    → step * rows ≤ dst.len
    → (new : Bytes) × (copy_rows source base pitch width step n dst ≡ some new)
      × Filled width step n (λ row c. source.at (base + row * pitch + c)) dst new
unfolding copy_rows
copy_rows-Filled source base pitch width step zero rows dst hp hs hn hb hd =
    (dst, refl, Filled-zero width step _ dst)
copy_rows-Filled source base pitch width step (suc n) rows dst hp hs hn hb hd =
    let (mid, ran, filled) =
      copy_rows-Filled source base pitch width step n rows dst hp hs (omega arith) hb hd in
    let lo : ℕ = base + n * pitch in
    let from : Bytes = record { len = lo + width - lo; at = λ i. source.at (lo + i) } in
    let source_fits : lo + width ≤ source.len =
      omega (arith, row_ends n rows width pitch hn hp, hb) in
    let dst_fits : n * step + width ≤ mid.len =
      omega (arith, row_ends n rows width step hn hs, hd, filled.same_len) in
    let cut = slice-some source lo (lo + width) (omega arith) source_fits in
    let stored = put-some mid (n * step) width from dst_fits (omega arith) in
    (
      write_at mid (n * step) from,
      rw (ran, cut) stored,
      Filled-suc from hs (omega arith) (λ c p. refl) filled,
    )
