-- ===== src/Desktop/Convert/Picture.antt =====
-- What `Converter::write` of desktop/src-tauri/src/camera/convert.rs answers, for any frame.
use ldktela.Base.{
  ℕ, ◌+◌, ◌-◌, ◌*◌, ◌/◌, ◌≤◌, ◌≡◌, refl, true, false, ◌&&◌, arith, Bool-cases, inl, inr,
}
use ldktela.Base.Int.{ℤ}
use ldktela.Desktop.{Size, Bytes}
use ldktela.Desktop.Convert.{
  Pixels, nv12, i420, yuy2, uyvy, rgb32, rgb24, half_up, needed, minimum_pitch, Raw,
}
use ldktela.Desktop.Convert.Rows.{slice-some}
use ldktela.Desktop.Convert.Writer.{
  Nv12Buffer, Converter, even_size, readable, roomy, resize, offsets_of, write_i420, write_rgb32,
  write_rgb24, write_packed, write_nv12, write_as, write,
}
use ldktela.Desktop.Convert.Total.{
  nv12_into-Planes, packed_422_into-Planes, Answered, store_planes-Answered, widen_rows-some,
  offsets_of_in,
}

module _ (i420_to_nv12 : Bytes → ℕ → Bytes → ℕ → Bytes → ℕ → Nv12Buffer → Size → Nv12Buffer)
    (argb_to_nv12 : Bytes → ℕ → Nv12Buffer → ℕ → ℤ → Nv12Buffer) where
  nv12_Answered :
      (c : Converter) (raw : Raw) (size : Size) (dst : Nv12Buffer)
      → Answered (write_nv12 i420_to_nv12 argb_to_nv12 c raw size dst) dst
  unfolding write_nv12
  nv12_Answered c raw size dst =
      let (w, ran, planes) = nv12_into-Planes raw size dst.y dst.stride_y dst.uv dst.stride_uv in
      rw ran (store_planes-Answered c dst w planes)

  packed_Answered :
      (c : Converter) (raw : Raw) (size : Size) (dst : Nv12Buffer)
      → even_size size ≡ true
      → roomy dst size.height ≡ true
      → Answered (write_packed i420_to_nv12 argb_to_nv12 c raw size dst) dst
  unfolding write_packed
  packed_Answered c raw size dst even room =
      let (w, ran, planes) =
        packed_422_into-Planes raw size (offsets_of c.kind) dst even room (offsets_of_in c.kind) in
      rw ran (store_planes-Answered c dst w planes)

  i420_Answered :
      (c : Converter) (raw : Raw) (size : Size) (dst : Nv12Buffer)
      → readable i420 raw size ≡ true
      → Answered (write_i420 i420_to_nv12 argb_to_nv12 c raw size dst) dst
  unfolding write_i420 readable needed
  i420_Answered c raw size dst r =
      let luma : ℕ = raw.pitch * size.height in
      let chroma : ℕ = raw.pitch / 2 * half_up size.height in
      let len : ℕ = raw.data_.len in
      let long : luma + 2 * (raw.pitch / 2) * half_up size.height ≤ len = ground arith in
      let long2 : luma + 2 * chroma ≤ len = grind arith in
      let rest : Bytes = record { len = len - luma; at = λ i. raw.data_.at (luma + i) } in
      let after : Bytes = record { len = rest.len - chroma; at = λ i. rest.at (chroma + i) } in
      let first = slice-some raw.data_ 0 luma (omega arith) (omega arith) in
      let second = slice-some raw.data_ luma len (omega arith) (omega arith) in
      let third = slice-some rest 0 chroma (omega arith) (omega arith) in
      let fourth = slice-some rest chroma rest.len (omega arith) (omega arith) in
      let fifth = slice-some after 0 chroma (omega arith) (omega arith) in
      rw (first, second, third, fourth, fifth) (_, refl, λ h. cc)

  rgb32_Answered :
      (c : Converter) (raw : Raw) (size : Size) (dst : Nv12Buffer)
      → readable rgb32 raw size ≡ true
      → Answered (write_rgb32 i420_to_nv12 argb_to_nv12 c raw size dst) dst
  unfolding write_rgb32 readable needed
  rgb32_Answered c raw size dst r =
      let cut = slice-some raw.data_ 0 (raw.pitch * size.height) (omega arith) (ground arith) in
      rw cut (_, refl, λ h. cc)

  rgb24_Answered :
      (c : Converter) (raw : Raw) (size : Size) (dst : Nv12Buffer)
      → readable rgb24 raw size ≡ true
      → Answered (write_rgb24 i420_to_nv12 argb_to_nv12 c raw size dst) dst
  unfolding write_rgb24 readable needed resize minimum_pitch
  rgb24_Answered c raw size dst r =
      let (scratch, ran, len) =
        widen_rows-some raw size.width size.height size.height
          (resize c.scratch (size.width * 4 * size.height)) (ground arith) (ground arith)
          (omega arith) (omega arith) in
      rw ran (_, refl, λ h. cc)

  write_as-Answered :
      (kind : Pixels) (c : Converter) (raw : Raw) (size : Size) (dst : Nv12Buffer)
      → even_size size ≡ true
      → readable kind raw size ≡ true
      → roomy dst size.height ≡ true
      → Answered (write_as i420_to_nv12 argb_to_nv12 kind c raw size dst) dst
  unfolding write_as
  write_as-Answered nv12 c raw size dst even r room = nv12_Answered c raw size dst
  write_as-Answered i420 c raw size dst even r room = i420_Answered c raw size dst r
  write_as-Answered yuy2 c raw size dst even r room = packed_Answered c raw size dst even room
  write_as-Answered uyvy c raw size dst even r room = packed_Answered c raw size dst even room
  write_as-Answered rgb32 c raw size dst even r room = rgb32_Answered c raw size dst r
  write_as-Answered rgb24 c raw size dst even r room = rgb24_Answered c raw size dst r

  -- Whatever frame a driver hands over (its length, pitch, size and orientation in any combination) and
  -- whatever buffer it is to be written to, `write` indexes neither past its end: it answers, and where
  -- it answers false the buffer is as it was.
  pub write-Answered :
      (c : Converter) (raw : Raw) (size : Size) (dst : Nv12Buffer)
      → Answered (write i420_to_nv12 argb_to_nv12 c raw size dst) dst
  unfolding write
  write-Answered c raw size dst =
      elim (Bool-cases (even_size size && readable c.kind raw size && roomy dst size.height)) [
        | inl e ↦
            rw (write, e)
              (write_as-Answered c.kind c raw size dst (ground arith) (ground arith) (ground arith))
        | inr e ↦ rw (write, e) ((false, c, dst), refl, λ h. refl)
      ]
