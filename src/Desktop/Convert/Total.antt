-- ===== src/Desktop/Convert/Total.antt =====
-- `Converter::write` of desktop/src-tauri/src/camera/convert.rs reads and writes inside its buffers.
use ldktela.Base.{
  ℕ, zero, suc, ◌+◌, ◌-◌, ◌*◌, ◌/◌, ◌≤◌, ◌≡◌, refl, ap, Bool, true, false, Option, some, arith, inl,
  inr, Bool-cases,
}
use mathlib.Core.Path.{subst}
use ldktela.Desktop.{Size, Bytes, write_at}
use ldktela.Desktop.Convert.{
  Pixels, nv12, i420, yuy2, uyvy, rgb32, rgb24, Raw, Offsets, Written, accepted, copy_planes,
  nv12_fits, nv12_into, packed_fits, packed_422_into,
}
use ldktela.Desktop.Convert.Rows.{slice-some, put-some, Filled, row_ends, copy_rows-Filled}
use ldktela.Desktop.Convert.Packed.{Fits, packed_rows-Filled, luma_of, chroma_of}
use ldktela.Desktop.Convert.Writer.{
  Nv12Buffer, Converter, even_size, roomy, widened_row, widen_rows, offsets_of, Answer,
  store_planes,
}

-- The planes hold the picture if the answer is true, and are the old ones if it is false.
pub record Planes (fits : Bool) (size : Size) (stride_y stride_uv : ℕ) (luma chroma : ℕ → ℕ → ℕ)
    (y uv : Bytes) (w : Written) : Type 0 where
  pub taken : fits ≡ true → w.0 ≡ true
  pub refused : w.0 ≡ false → w ≡ (false, y, uv)
  pub luma_there : w.0 ≡ true → Filled size.width stride_y size.height luma y w.1
  pub chroma_there : w.0 ≡ true → Filled size.width stride_uv (size.height / 2) chroma uv w.2

abbrev pub nv12_luma : Raw → ℕ → ℕ → ℕ
nv12_luma raw row column = raw.data_.at (0 + row * raw.pitch + column)

abbrev pub nv12_chroma : Raw → Size → ℕ → ℕ → ℕ
nv12_chroma raw size row column = raw.data_.at (raw.pitch * size.height + row * raw.pitch + column)

pub nv12_into-Planes :
    (raw : Raw) (size : Size) (y : Bytes) (stride_y : ℕ) (uv : Bytes) (stride_uv : ℕ)
    → (w : Written) × (nv12_into raw.data_ raw.pitch size y stride_y uv stride_uv ≡ some w)
      × Planes
          (nv12_fits raw.data_ raw.pitch size y stride_y uv stride_uv)
          size
          stride_y
          stride_uv
          (nv12_luma raw)
          (nv12_chroma raw size)
          y
          uv
          w
unfolding nv12_into copy_planes nv12_fits
nv12_into-Planes raw size y stride_y uv stride_uv =
    elim (Bool-cases (nv12_fits raw.data_ raw.pitch size y stride_y uv stride_uv)) [
      | inl e ↦
          let (y2, y_ran, y_filled) =
            copy_rows-Filled raw.data_ 0 raw.pitch size.width stride_y size.height size.height y
              (ground arith) (ground arith) (omega arith) (ground arith) (ground arith) in
          let (uv2, uv_ran, uv_filled) =
            copy_rows-Filled raw.data_ (raw.pitch * size.height) raw.pitch size.width stride_uv
              (size.height / 2) (size.height / 2) uv (ground arith) (ground arith) (omega arith)
              (ground arith) (ground arith) in
          (
            (true, y2, uv2),
            rw (nv12_into, e, y_ran, uv_ran) refl,
            record {
              taken = λ h. refl;
              refused = λ h. cc;
              luma_there = λ h. y_filled;
              chroma_there = λ h. uv_filled;
            },
          )
      | inr e ↦ (
        (false, y, uv),
        rw (nv12_into, e) refl,
        record {
          taken = λ h. cc;
          refused = λ h. refl;
          luma_there = λ h. cc;
          chroma_there = λ h. cc;
        },
      )
    ]

pub packed_422_into-Planes :
    (raw : Raw) (size : Size) (offsets : Offsets) (dst : Nv12Buffer)
    → even_size size ≡ true
    → roomy dst size.height ≡ true
    → (offsets.luma_at ≤ 1) × (offsets.u_at ≤ 3) × (offsets.v_at ≤ 3)
    → (w : Written) × (packed_422_into raw size offsets dst.y dst.stride_y dst.uv dst.stride_uv
        ≡ some w)
      × Planes
          (packed_fits raw size dst.stride_y dst.stride_uv)
          size
          dst.stride_y
          dst.stride_uv
          (luma_of raw size offsets)
          (chroma_of raw size offsets)
          dst.y
          dst.uv
          w
unfolding packed_422_into packed_fits even_size roomy accepted
packed_422_into-Planes raw size offsets dst even room (in_y, in_u, in_v) =
    elim (Bool-cases (packed_fits raw size dst.stride_y dst.stride_uv)) [
      | inl e ↦
          let fits : Fits raw size offsets dst.stride_y dst.stride_uv dst.y dst.uv = record {
            even_width = ground arith;
            even_height = ground arith;
            wide = ground arith;
            long = ground arith;
            y_wide = ground arith;
            uv_wide = ground arith;
            y_long = ground arith;
            uv_long = ground arith;
            luma_in = in_y;
            u_in = in_u;
            v_in = in_v;
          } in
          let (planes, ran, luma, chroma) = packed_rows-Filled fits size.height (omega arith) in
          (
            (true, planes.0, planes.1),
            rw (packed_422_into, e, ran) refl,
            record {
              taken = λ h. refl;
              refused = λ h. cc;
              luma_there = λ h. luma;
              chroma_there = λ h.
                  subst
                    (λ (k : ℕ).
                      Filled size.width dst.stride_uv k (chroma_of raw size offsets) dst.uv
                        planes.1)
                    (ground arith) chroma;
            },
          )
      | inr e ↦ (
        (false, dst.y, dst.uv),
        rw (packed_422_into, e) refl,
        record {
          taken = λ h. cc;
          refused = λ h. refl;
          luma_there = λ h. cc;
          chroma_there = λ h. cc;
        },
      )
    ]

-- An answer is given, and the buffer is the old one if it is false.
abbrev pub Answered : Option Answer → Nv12Buffer → Type 0
Answered o dst = (a : Answer) × (o ≡ some a) × (a.0 ≡ false → a.2 ≡ dst)

pub store_planes-Answered :
    {fits : Bool} {size : Size} {luma chroma : ℕ → ℕ → ℕ} (c : Converter) (dst : Nv12Buffer)
    (w : Written)
    → Planes fits size dst.stride_y dst.stride_uv luma chroma dst.y dst.uv w
    → Answered (some (store_planes c dst w)) dst
unfolding store_planes
store_planes-Answered c dst w planes = (
  store_planes c dst w,
  refl,
  λ h. ap (λ (v : Written). record dst { y = v.1; uv = v.2 }) (planes.refused h),
)

pub widen_rows-some :
    (raw : Raw) (width rows n : ℕ) (scratch : Bytes)
    → width * 3 ≤ raw.pitch
    → raw.pitch * rows ≤ raw.data_.len
    → width * 4 * rows ≤ scratch.len
    → n ≤ rows
    → (new : Bytes) × (widen_rows raw width n scratch ≡ some new) × (new.len ≡ scratch.len)
unfolding widen_rows write_at widened_row
widen_rows-some raw width rows zero scratch hp hl hs hn = (scratch, refl, refl)
widen_rows-some raw width rows (suc n) scratch hp hl hs hn =
    let (mid, ran, len) = widen_rows-some raw width rows n scratch hp hl hs (omega arith) in
    let lo : ℕ = n * raw.pitch in
    let from : Bytes = record { len = lo + width * 3 - lo; at = λ i. raw.data_.at (lo + i) } in
    let cut =
      slice-some raw.data_ lo (lo + width * 3) (omega arith)
        (omega (arith, row_ends n rows (width * 3) raw.pitch hn hp, hl)) in
    let stored =
      put-some mid (n * (width * 4)) (width * 4) (widened_row width from)
        (omega (arith, row_ends n rows (width * 4) (width * 4) hn (omega arith), hs, len))
        (omega arith) in
    (write_at mid (n * (width * 4)) (widened_row width from), rw (ran, cut) stored, len)

pub offsets_of_in :
    (kind : Pixels)
    → ((offsets_of kind).luma_at ≤ 1) × ((offsets_of kind).u_at ≤ 3) × ((offsets_of kind).v_at ≤ 3)
unfolding offsets_of
offsets_of_in yuy2 = omega arith
offsets_of_in nv12 = omega arith
offsets_of_in i420 = omega arith
offsets_of_in uyvy = omega arith
offsets_of_in rgb32 = omega arith
offsets_of_in rgb24 = omega arith
