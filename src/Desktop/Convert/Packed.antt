-- ===== src/Desktop/Convert/Packed.antt =====
-- `packed_422_into` of desktop/src-tauri/src/camera/convert.rs: the rows of a packed frame.
use ldktela.Base.{
  ℕ, zero, suc, ◌+◌, ◌-◌, ◌*◌, ◌/◌, ◌%◌, ◌≤◌, ◌<◌, ◌≡◌, refl, ap, Bool, true, false, some, ◌==◌,
  arith, inl, inr, Bool-cases,
}
use mathlib.Core.Path.{subst}
use ldktela.Desktop.{Size, Bytes, slice, write_at, gather}
use ldktela.Desktop.Convert.{
  Raw, Offsets, stored_row, chroma_index, chroma_row, packed_row, packed_rows,
}
use ldktela.Desktop.Convert.Rows.{
  slice-some, put-some, gather-some, Filled, Filled-zero, Filled-suc, row_ends,
}

-- What a packed frame is written from and to, within bounds: an even size, rows of two bytes to a pixel,
-- and offsets inside a pair of pixels.
pub record Fits (raw : Raw) (size : Size) (offsets : Offsets) (stride_y stride_uv : ℕ)
    (y uv : Bytes) : Type 0 where
  pub even_width : size.width / 2 * 2 ≡ size.width
  pub even_height : size.height / 2 * 2 ≡ size.height
  pub wide : size.width * 2 ≤ raw.pitch
  pub long : raw.pitch * size.height ≤ raw.data_.len
  pub y_wide : size.width ≤ stride_y
  pub uv_wide : size.width ≤ stride_uv
  pub y_long : stride_y * size.height ≤ y.len
  pub uv_long : stride_uv * (size.height / 2) ≤ uv.len
  pub luma_in : offsets.luma_at ≤ 1
  pub u_in : offsets.u_at ≤ 3
  pub v_in : offsets.v_at ≤ 3

-- The bytes of the frame that make luma and chroma.
abbrev pub luma_of : Raw → Size → Offsets → ℕ → ℕ → ℕ
luma_of raw size offsets row column =
    raw.data_.at
      (stored_row raw.bottom_up size.height row * raw.pitch + (column * 2 + offsets.luma_at))

abbrev pub chroma_of : Raw → Size → Offsets → ℕ → ℕ → ℕ
chroma_of raw size offsets row column =
    raw.data_.at
      (stored_row raw.bottom_up size.height (row * 2) * raw.pitch + chroma_index offsets column)

stored_row-lt :
    (bottom_up : Bool) (rows row : ℕ) → row < rows → stored_row bottom_up rows row < rows
unfolding stored_row
stored_row-lt true rows row p = omega arith
stored_row-lt false rows row p = p

chroma_index-lt :
    (offsets : Offsets) (width i : ℕ)
    → offsets.u_at ≤ 3
    → offsets.v_at ≤ 3
    → i < width / 2 * 2
    → chroma_index offsets i < width * 2
unfolding chroma_index
chroma_index-lt offsets width i hu hv p = ground arith

abbrev pub half_of : ℕ → ℕ
half_of n = (n + 1) / 2

module _ {raw : Raw} {size : Size} {offsets : Offsets} {stride_y stride_uv : ℕ} {y uv : Bytes}
    (fits : Fits raw size offsets stride_y stride_uv y uv) where
  abbrev pub Luma : ℕ → Bytes → Type 0
  Luma n new = Filled size.width stride_y n (luma_of raw size offsets) y new

  abbrev pub Chroma : ℕ → Bytes → Type 0
  Chroma n new = Filled size.width stride_uv n (chroma_of raw size offsets) uv new

  -- The slice that a row of the picture is read from.
  row_bytes : ℕ → Bytes
  row_bytes n =
      let start : ℕ = stored_row raw.bottom_up size.height n * raw.pitch in
      record { len = start + size.width * 2 - start; at = λ i. raw.data_.at (start + i) }

  row_bytes-slice :
      (n : ℕ)
      → n < size.height
      → let start : ℕ = stored_row raw.bottom_up size.height n * raw.pitch in
        slice raw.data_ start (start + size.width * 2) ≡ some (row_bytes n)
  unfolding row_bytes
  row_bytes-slice n p =
      let row : ℕ = stored_row raw.bottom_up size.height n in
      slice-some raw.data_ (row * raw.pitch) (row * raw.pitch + size.width * 2) (omega arith) (
        omega (
          arith,
          row_ends row size.height (size.width * 2) raw.pitch
              (stored_row-lt raw.bottom_up size.height n p) fits.wide,
          fits.long,
        ))

  pairs_of : ℕ → Bytes
  pairs_of n = record {
    len = size.width / 2 * 2;
    at = λ i. (row_bytes n).at (chroma_index offsets i);
  }

  even_chroma :
      (n : ℕ) (mid : Bytes)
      → n < size.height
      → (n % 2 == 0) ≡ true
      → mid.len ≡ uv.len
      → chroma_row offsets size.width (row_bytes n) n stride_uv mid
        ≡ some (write_at mid (n / 2 * stride_uv) (pairs_of n))
  unfolding chroma_row row_bytes pairs_of
  even_chroma n mid p even len =
      let from : Bytes = row_bytes n in
      let gathered =
        gather-some (size.width / 2 * 2) (chroma_index offsets) from
          (λ i q. omega (arith, chroma_index-lt offsets size.width i fits.u_in fits.v_in q)) in
      let room : n / 2 * stride_uv + size.width ≤ mid.len = omega (
        arith,
        row_ends (n / 2) (size.height / 2) size.width stride_uv (omega (arith, fits.even_height))
            fits.uv_wide,
        fits.uv_long,
        len,
      ) in
      rw (chroma_row, even, gathered)
        (put-some mid (n / 2 * stride_uv) size.width (pairs_of n) room (omega arith))

  -- After the rows below `n`, half of them, rounded up, hold chroma.
  Chroma-step :
      (n : ℕ) (mid : Bytes)
      → n < size.height
      → Chroma (half_of n) mid
      → (new : Bytes) × (chroma_row offsets size.width (row_bytes n) n stride_uv mid ≡ some new)
        × Chroma (half_of (suc n)) new
  unfolding row_bytes pairs_of chroma_row
  Chroma-step n mid p filled = elim (Bool-cases (n % 2 == 0)) [
    | inl even ↦
        let filled_n : Chroma (n / 2) mid = subst (λ (k : ℕ). Chroma k mid) (ground arith) filled in
        (
          write_at mid (n / 2 * stride_uv) (pairs_of n),
          even_chroma n mid p even filled.same_len,
          subst (λ (k : ℕ). Chroma k (write_at mid (n / 2 * stride_uv) (pairs_of n))) (ground arith)
              (Filled-suc (pairs_of n) fits.uv_wide fits.even_width
                (λ c q.
                  ap
                    (λ (r : ℕ).
                      raw.data_.at (
                        stored_row raw.bottom_up size.height r * raw.pitch
                        + chroma_index offsets c))
                    (ground arith))
                filled_n),
        )
    | inr odd ↦
        (mid, rw (chroma_row, odd) refl, subst (λ (k : ℕ). Chroma k mid) (ground arith) filled)
  ]

  luma_row : ℕ → Bytes
  luma_row n = record {
    len = size.width;
    at = λ pixel. (row_bytes n).at (pixel * 2 + offsets.luma_at);
  }

  luma_gather :
      (n : ℕ)
      → gather size.width (λ pixel. pixel * 2 + offsets.luma_at) (row_bytes n) ≡ some (luma_row n)
  unfolding row_bytes luma_row
  luma_gather n =
      gather-some size.width (λ pixel. pixel * 2 + offsets.luma_at) (row_bytes n)
        (λ i q. omega (arith, fits.luma_in, q))

  pub packed_rows-Filled :
      (n : ℕ)
      → n ≤ size.height
      → (planes : Bytes × Bytes) × (packed_rows raw size offsets stride_y stride_uv n y uv
          ≡ some planes)
        × Luma n planes.0
        × Chroma (half_of n) planes.1
  unfolding packed_rows packed_row luma_row row_bytes
  packed_rows-Filled zero p = ((y, uv), refl, Filled-zero _ _ _ y, Filled-zero _ _ _ uv)
  packed_rows-Filled (suc n) p =
      let ((y2, uv2), ran, luma, chroma) = packed_rows-Filled n (omega arith) in
      let (uv3, chroma_ran, chroma_filled) = Chroma-step n uv2 (omega arith) chroma in
      let room : n * stride_y + size.width ≤ y2.len = omega (
        arith,
        row_ends n size.height size.width stride_y (omega arith) fits.y_wide,
        fits.y_long,
        luma.same_len,
      ) in
      let stored = put-some y2 (n * stride_y) size.width (luma_row n) room (omega arith) in
      (
        (write_at y2 (n * stride_y) (luma_row n), uv3),
        rw (ran, packed_row, row_bytes-slice n (omega arith), luma_gather n, stored, chroma_ran)
            refl,
        Filled-suc (luma_row n) fits.y_wide refl (λ c q. refl) luma,
        chroma_filled,
      )
