-- ===== src/Desktop/Convert.antt =====
-- Camera frames into NV12: desktop/src-tauri/src/camera/convert.rs.
--
-- The buffer of libwebrtc is its two planes and their strides; the conversions of libyuv are
-- parameters.
pub mod Rows
pub mod Packed
pub mod Writer
pub mod Total
pub mod Picture
pub mod Shown
mod Tests
use ldktela.Base.{
  ◌>>=◌, ℕ, zero, suc, ◌+◌, ◌-◌, ◌*◌, ◌/◌, ◌%◌, Bool, true, false, not, ◌&&◌, ◌||◌, Option, none,
  some, ◌==◌, leb, ltb, if◌then◌else◌,
}
use mathlib.Core.Option
use ldktela.Desktop.{Size, Bytes, slice, put, gather}

pub data Pixels : Type 0 where
  nv12 i420 yuy2 uyvy rgb32 rgb24 : Pixels

-- `div_ceil(2)`, `div_ceil(4)`
unfoldable pub half_up : ℕ → ℕ
half_up n = (n + 1) / 2

unfoldable pub stride : Pixels → ℕ → ℕ
stride nv12 width = width
stride i420 width = width
stride yuy2 width = width * 2
stride uyvy width = width * 2
stride rgb32 width = width * 4
stride rgb24 width = (width * 3 + 3) / 4 * 4

unfoldable pub needed : Pixels → ℕ → ℕ → ℕ
needed nv12 pitch rows = pitch * rows + pitch * half_up rows
needed i420 pitch rows = pitch * rows + 2 * (pitch / 2) * half_up rows
needed yuy2 pitch rows = pitch * rows
needed uyvy pitch rows = pitch * rows
needed rgb32 pitch rows = pitch * rows
needed rgb24 pitch rows = pitch * rows

unfoldable pub frame_bytes : Pixels → Size → ℕ
frame_bytes kind size = needed kind (stride kind size.width) size.height

unfoldable pub can_be_bottom_up : Pixels → Bool
can_be_bottom_up nv12 = false
can_be_bottom_up i420 = false
can_be_bottom_up yuy2 = true
can_be_bottom_up uyvy = true
can_be_bottom_up rgb32 = true
can_be_bottom_up rgb24 = true

unfoldable pub minimum_pitch : Pixels → ℕ → ℕ
minimum_pitch nv12 width = width
minimum_pitch i420 width = width
minimum_pitch yuy2 width = width * 2
minimum_pitch uyvy width = width * 2
minimum_pitch rgb32 width = width * 4
minimum_pitch rgb24 width = width * 3

pub record Raw : Type 0 where
  pub data_ : Bytes
  pub pitch : ℕ
  pub bottom_up : Bool

-- The rows below `n`, each copied from `base` and its pitch to its place in the plane.
unfoldable pub copy_rows : Bytes → ℕ → ℕ → ℕ → ℕ → ℕ → Bytes → Option Bytes
copy_rows source base pitch width step zero dst = some dst
copy_rows source base pitch width step (suc n) dst = do
  done ← copy_rows source base pitch width step n dst
  from ← slice source (base + n * pitch) (base + n * pitch + width)
  put done (n * step) width from

-- The answer, and the two planes.
abbrev pub Written : Type 0
Written = Bool × Bytes × Bytes

unfoldable pub copy_planes : Bytes → ℕ → Size → Bytes → ℕ → Bytes → ℕ → Option Written
copy_planes source pitch size dst_y stride_y dst_uv stride_uv = do
  y ← copy_rows source 0 pitch size.width stride_y size.height dst_y
  uv ← copy_rows source (pitch * size.height) pitch size.width stride_uv (size.height / 2) dst_uv
  some (true, y, uv)

unfoldable pub nv12_fits : Bytes → ℕ → Size → Bytes → ℕ → Bytes → ℕ → Bool
nv12_fits source pitch size dst_y stride_y dst_uv stride_uv =
    leb size.width pitch
    && leb (pitch * size.height + pitch * (size.height / 2)) source.len
    && leb size.width stride_y
    && leb size.width stride_uv
    && leb (stride_y * size.height) dst_y.len
    && leb (stride_uv * (size.height / 2)) dst_uv.len

unfoldable pub nv12_into : Bytes → ℕ → Size → Bytes → ℕ → Bytes → ℕ → Option Written
nv12_into source pitch size dst_y stride_y dst_uv stride_uv =
    if nv12_fits source pitch size dst_y stride_y dst_uv stride_uv
    then copy_planes source pitch size dst_y stride_y dst_uv stride_uv
    else some (false, dst_y, dst_uv)

pub record Offsets : Type 0 where
  pub luma_at : ℕ
  pub u_at : ℕ
  pub v_at : ℕ

-- Where the row of the picture stands in memory.
unfoldable pub stored_row : Bool → ℕ → ℕ → ℕ
stored_row bottom_up rows row = if bottom_up then rows - 1 - row else row

unfoldable pub chroma_index : Offsets → ℕ → ℕ
chroma_index offsets i = i / 2 * 4 + (if i % 2 == 0 then offsets.u_at else offsets.v_at)

unfoldable pub chroma_row : Offsets → ℕ → Bytes → ℕ → ℕ → Bytes → Option Bytes
chroma_row offsets width from row stride_uv uv = elim (row % 2 == 0) [
  | true ↦ do
    pairs ← gather (width / 2 * 2) (chroma_index offsets) from
    put uv (row / 2 * stride_uv) width pairs
  | false ↦ some uv
]

unfoldable pub packed_row :
    Raw → Size → Offsets → ℕ → ℕ → ℕ → Bytes → Bytes → Option (Bytes × Bytes)
packed_row raw size offsets stride_y stride_uv row y uv = do
  let start = stored_row raw.bottom_up size.height row * raw.pitch
  from ← slice raw.data_ start (start + size.width * 2)
  luma ← gather size.width (λ pixel. pixel * 2 + offsets.luma_at) from
  y2 ← put y (row * stride_y) size.width luma
  uv2 ← chroma_row offsets size.width from row stride_uv uv
  some (y2, uv2)

-- The rows below `n`.
unfoldable pub packed_rows :
    Raw → Size → Offsets → ℕ → ℕ → ℕ → Bytes → Bytes → Option (Bytes × Bytes)
packed_rows raw size offsets stride_y stride_uv zero y uv = some (y, uv)
packed_rows raw size offsets stride_y stride_uv (suc n) y uv = do
  (y2, uv2) ← packed_rows raw size offsets stride_y stride_uv n y uv
  packed_row raw size offsets stride_y stride_uv n y2 uv2

unfoldable pub accepted : Bytes × Bytes → Written
accepted (y, uv) = (true, y, uv)

unfoldable pub packed_fits : Raw → Size → ℕ → ℕ → Bool
packed_fits raw size stride_y stride_uv =
    leb (size.width * 2) raw.pitch
    && leb (raw.pitch * size.height) raw.data_.len
    && leb size.width stride_y
    && leb size.width stride_uv

unfoldable pub packed_422_into : Raw → Size → Offsets → Bytes → ℕ → Bytes → ℕ → Option Written
packed_422_into raw size offsets dst_y stride_y dst_uv stride_uv =
    if packed_fits raw size stride_y stride_uv
    then Option.map accepted
        (packed_rows raw size offsets stride_y stride_uv size.height dst_y dst_uv)
    else some (false, dst_y, dst_uv)
