-- ===== src/Desktop/Convert/Shown.antt =====
-- What `Converter::write` of desktop/src-tauri/src/camera/convert.rs leaves in the buffer, for the layouts that the
-- program reads itself.
use ldktela.Base.{
  ◌-◌, false, ℕ, ◌+◌, ◌*◌, ◌/◌, ◌%◌, ◌≤◌, ◌<◌, ◌≡◌, refl, ap, ◌∙◌, Bool, true, Option, some, arith,
}
use ldktela.Base.Int.{ℤ}
use ldktela.Desktop.{Size, Bytes}
use ldktela.Desktop.Convert.{
  Pixels, nv12, yuy2, uyvy, half_up, needed, minimum_pitch, Raw, nv12_fits, packed_fits, Written,
  stored_row, chroma_index,
}
use ldktela.Desktop.Convert.Packed.{luma_of, chroma_of}
use ldktela.Desktop.Convert.Writer.{
  Nv12Buffer, Converter, even_size, readable, roomy, offsets_of, Answer, write_packed, write_nv12,
  write_as, write, store_planes,
}
use ldktela.Desktop.Convert.Total.{Planes, nv12_into-Planes, packed_422_into-Planes, offsets_of_in}

-- The bytes of the frame that a pixel, and the chroma byte of a row of pairs, are written from: for the
-- layouts that the program reads itself.
pub data Direct : Pixels → Type 0 where
  is_nv12 : Direct nv12
  is_yuy2 : Direct yuy2
  is_uyvy : Direct uyvy

abbrev pub picture_row : Bool → ℕ → ℕ → ℕ
picture_row true rows row = rows - 1 - row
picture_row false rows row = row

stored_row-picture :
    (bottom_up : Bool) (rows row : ℕ)
    → stored_row bottom_up rows row ≡ picture_row bottom_up rows row
unfolding stored_row
stored_row-picture true rows row = refl
stored_row-picture false rows row = refl

abbrev pub luma_byte : {kind : Pixels} → Direct kind → Raw → Size → ℕ → ℕ → ℕ
luma_byte is_nv12 raw size row column = row * raw.pitch + column
luma_byte is_yuy2 raw size row column =
    picture_row raw.bottom_up size.height row * raw.pitch + column * 2
luma_byte is_uyvy raw size row column =
    picture_row raw.bottom_up size.height row * raw.pitch + column * 2 + 1

abbrev pub chroma_byte : {kind : Pixels} → Direct kind → Raw → Size → ℕ → ℕ → ℕ
chroma_byte is_nv12 raw size row i = raw.pitch * size.height + row * raw.pitch + i
chroma_byte is_yuy2 raw size row i =
    picture_row raw.bottom_up size.height (row * 2) * raw.pitch + (i / 2 * 4 + (1 + i % 2 * 2))
chroma_byte is_uyvy raw size row i =
    picture_row raw.bottom_up size.height (row * 2) * raw.pitch + (i / 2 * 4 + i % 2 * 2)

-- The picture stands in the planes of the buffer.
abbrev pub Shows : {kind : Pixels} → Direct kind → Raw → Size → Nv12Buffer → Type 0
Shows direct raw size dst =
    ((row column : ℕ)
      → row < size.height
      → column < size.width
      → dst.y.at (row * dst.stride_y + column)
        ≡ raw.data_.at (luma_byte direct raw size row column))
    × ((row i : ℕ)
        → row < size.height / 2
        → i < size.width
        → dst.uv.at (row * dst.stride_uv + i) ≡ raw.data_.at (chroma_byte direct raw size row i))

module _ {kind : Pixels} (direct : Direct kind) (raw : Raw) (size : Size) (c : Converter)
    (dst : Nv12Buffer) where
  -- Written, and shown.
  abbrev Done : Option Answer → Type 0
  Done o = (new : Nv12Buffer) × (o ≡ some (true, c, new)) × Shows direct raw size new

  Planes-Done :
      {fits : Bool} {luma chroma : ℕ → ℕ → ℕ} (w : Written)
      → Planes fits size dst.stride_y dst.stride_uv luma chroma dst.y dst.uv w
      → fits ≡ true
      → ((row column : ℕ) → luma row column ≡ raw.data_.at (luma_byte direct raw size row column))
      → ((row i : ℕ) → chroma row i ≡ raw.data_.at (chroma_byte direct raw size row i))
      → Done (some (store_planes c dst w))
  unfolding store_planes
  Planes-Done w planes fits hl hc =
      let yes : w.0 ≡ true = planes.taken fits in
      (
        record dst { y = w.1; uv = w.2 },
        ap (λ (b : Bool). some (b, c, record dst { y = w.1; uv = w.2 })) yes,
        (
          λ row column p q. (planes.luma_there yes).pixels row column p q ∙ hl row column,
          λ row i p q. (planes.chroma_there yes).pixels row i p q ∙ hc row i,
        ),
      )

module _ (i420_to_nv12 : Bytes → ℕ → Bytes → ℕ → Bytes → ℕ → Nv12Buffer → Size → Nv12Buffer)
    (argb_to_nv12 : Bytes → ℕ → Nv12Buffer → ℕ → ℤ → Nv12Buffer) where
  chroma_mono : (pitch rows : ℕ) → pitch * (rows / 2) ≤ pitch * ((rows + 1) / 2)
  chroma_mono pitch rows = let le : rows / 2 ≤ (rows + 1) / 2 = omega arith in grind arith

  whole :
      (raw : Raw) (size : Size) (dst : Nv12Buffer)
      → readable nv12 raw size ≡ true
      → roomy dst size.height ≡ true
      → size.width ≤ dst.stride_y
      → size.width ≤ dst.stride_uv
      → nv12_fits raw.data_ raw.pitch size dst.y dst.stride_y dst.uv dst.stride_uv ≡ true
  unfolding readable roomy needed minimum_pitch nv12_fits half_up
  whole raw size dst r room hy huv = ground (arith, chroma_mono raw.pitch size.height)

  nv12_Done :
      (c : Converter) (raw : Raw) (size : Size) (dst : Nv12Buffer)
      → readable nv12 raw size ≡ true
      → roomy dst size.height ≡ true
      → size.width ≤ dst.stride_y
      → size.width ≤ dst.stride_uv
      → Done is_nv12 raw size c dst (write_nv12 i420_to_nv12 argb_to_nv12 c raw size dst)
  unfolding write_nv12
  nv12_Done c raw size dst r room hy huv =
      let (w, ran, planes) = nv12_into-Planes raw size dst.y dst.stride_y dst.uv dst.stride_uv in
      rw ran (
        Planes-Done is_nv12 raw size c dst w planes (whole raw size dst r room hy huv)
          (λ row column. ap raw.data_.at (omega arith)) (λ row i. refl))

  packed_Done :
      {kind : Pixels} (direct : Direct kind) (c : Converter) (raw : Raw) (size : Size)
      (dst : Nv12Buffer)
      → even_size size ≡ true
      → roomy dst size.height ≡ true
      → packed_fits raw size dst.stride_y dst.stride_uv ≡ true
      → ((row column : ℕ)
          → luma_of raw size (offsets_of c.kind) row column
            ≡ raw.data_.at (luma_byte direct raw size row column))
      → ((row i : ℕ)
          → chroma_of raw size (offsets_of c.kind) row i
            ≡ raw.data_.at (chroma_byte direct raw size row i))
      → Done direct raw size c dst (write_packed i420_to_nv12 argb_to_nv12 c raw size dst)
  unfolding write_packed
  packed_Done direct c raw size dst even room fits hl hc =
      let (w, ran, planes) =
        packed_422_into-Planes raw size (offsets_of c.kind) dst even room (offsets_of_in c.kind) in
      rw ran (Planes-Done direct raw size c dst w planes fits hl hc)

  yuy2_fits :
      (raw : Raw) (size : Size) (dst : Nv12Buffer)
      → readable yuy2 raw size ≡ true
      → size.width ≤ dst.stride_y
      → size.width ≤ dst.stride_uv
      → packed_fits raw size dst.stride_y dst.stride_uv ≡ true
  unfolding packed_fits readable needed minimum_pitch
  yuy2_fits raw size dst r hy huv = ground arith

  uyvy_fits :
      (raw : Raw) (size : Size) (dst : Nv12Buffer)
      → readable uyvy raw size ≡ true
      → size.width ≤ dst.stride_y
      → size.width ≤ dst.stride_uv
      → packed_fits raw size dst.stride_y dst.stride_uv ≡ true
  unfolding packed_fits readable needed minimum_pitch
  uyvy_fits raw size dst r hy huv = ground arith

  yuy2_luma :
      (raw : Raw) (size : Size) (row column : ℕ)
      → luma_of raw size (offsets_of yuy2) row column
        ≡ raw.data_.at (luma_byte is_yuy2 raw size row column)
  unfolding offsets_of
  yuy2_luma raw size row column =
      rw (luma_of, stored_row-picture raw.bottom_up size.height row) (ap raw.data_.at (omega arith))

  uyvy_luma :
      (raw : Raw) (size : Size) (row column : ℕ)
      → luma_of raw size (offsets_of uyvy) row column
        ≡ raw.data_.at (luma_byte is_uyvy raw size row column)
  unfolding offsets_of
  uyvy_luma raw size row column =
      rw (luma_of, stored_row-picture raw.bottom_up size.height row) (ap raw.data_.at (omega arith))

  yuy2_chroma :
      (raw : Raw) (size : Size) (row i : ℕ)
      → chroma_of raw size (offsets_of yuy2) row i
        ≡ raw.data_.at (chroma_byte is_yuy2 raw size row i)
  unfolding offsets_of chroma_index
  yuy2_chroma raw size row i =
      rw (chroma_of, stored_row-picture raw.bottom_up size.height (row * 2))
        (ap raw.data_.at (ground arith))

  uyvy_chroma :
      (raw : Raw) (size : Size) (row i : ℕ)
      → chroma_of raw size (offsets_of uyvy) row i
        ≡ raw.data_.at (chroma_byte is_uyvy raw size row i)
  unfolding offsets_of chroma_index
  uyvy_chroma raw size row i =
      rw (chroma_of, stored_row-picture raw.bottom_up size.height (row * 2))
        (ap raw.data_.at (ground arith))

  -- A frame in NV12, YUY2 or UYVY, of an even size and whole, in a buffer whose rows and planes are long
  -- enough, is written: every luma byte and every chroma byte of the picture is the byte of the frame at
  -- its row, the rows of a frame stored bottom-up being turned over, and at its offset in the layout.
  pub write-Shows :
      {kind : Pixels} (direct : Direct kind) (scratch : Bytes) (raw : Raw) (size : Size)
      (dst : Nv12Buffer)
      → even_size size ≡ true
      → readable kind raw size ≡ true
      → roomy dst size.height ≡ true
      → size.width ≤ dst.stride_y
      → size.width ≤ dst.stride_uv
      → let c : Converter = record { kind = kind; scratch = scratch } in
        (new : Nv12Buffer) × (write i420_to_nv12 argb_to_nv12 c raw size dst ≡ some (true, c, new))
        × Shows direct raw size new
  unfolding write write_as
  write-Shows is_nv12 scratch raw size dst even r room hy huv =
      rw (write, even, r, room)
        (nv12_Done (record { kind = nv12; scratch = scratch }) raw size dst r room hy huv)
  write-Shows is_yuy2 scratch raw size dst even r room hy huv =
      rw (write, even, r, room)
        (packed_Done is_yuy2 (record { kind = yuy2; scratch = scratch }) raw size dst even room
          (yuy2_fits raw size dst r hy huv) (yuy2_luma raw size) (yuy2_chroma raw size))
  write-Shows is_uyvy scratch raw size dst even r room hy huv =
      rw (write, even, r, room)
        (packed_Done is_uyvy (record { kind = uyvy; scratch = scratch }) raw size dst even room
          (uyvy_fits raw size dst r hy huv) (uyvy_luma raw size) (uyvy_chroma raw size))
