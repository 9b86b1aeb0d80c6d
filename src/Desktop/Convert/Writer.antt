-- ===== src/Desktop/Convert/Writer.antt =====
-- `Converter::write` of desktop/src-tauri/src/camera/convert.rs: what it refuses, and what it does
-- with each layout. The conversions of libyuv are parameters.
use ldktela.Base.{
  ◌>>=◌, ℕ, zero, suc, ◌+◌, ◌*◌, ◌/◌, ◌%◌, Bool, true, false, not, ◌&&◌, Option, some, ◌==◌, leb,
  ltb, if◌then◌else◌,
}
use ldktela.Base.Int.{ℤ, pos, negsuc}
use ldktela.Desktop.{Size, Bytes, slice, put}
use ldktela.Desktop.Convert.{
  Pixels, nv12, i420, yuy2, uyvy, rgb32, rgb24, half_up, needed, can_be_bottom_up, minimum_pitch,
  Raw, Offsets, Written, nv12_into, packed_422_into,
}

-- The buffer of libwebrtc.
pub record Nv12Buffer : Type 0 where
  pub stride_y : ℕ
  pub stride_uv : ℕ
  pub y : Bytes
  pub uv : Bytes

pub record Converter : Type 0 where
  pub kind : Pixels
  pub scratch : Bytes

unfoldable pub new : Pixels → Converter
new kind = record { kind = kind; scratch = record { len = 0; at = λ i. 0 } }

-- The picture is written from a source that can be read, into planes that are long enough.
unfoldable pub even_size : Size → Bool
even_size size =
    leb 2 size.width && leb 2 size.height && size.width % 2 == 0 && size.height % 2 == 0

unfoldable pub readable : Pixels → Raw → Size → Bool
readable kind raw size =
    not (raw.bottom_up && not (can_be_bottom_up kind))
    && leb (minimum_pitch kind size.width) raw.pitch
    && leb (needed kind raw.pitch size.height) raw.data_.len

unfoldable pub roomy : Nv12Buffer → ℕ → Bool
roomy dst rows = leb (dst.stride_y * rows) dst.y.len && leb (dst.stride_uv * (rows / 2)) dst.uv.len

-- `Vec::resize` with zeros.
unfoldable pub resize : Bytes → ℕ → Bytes
resize b n = record { len = n; at = λ i. if ltb i b.len then b.at i else 0 }

-- B, G, R and 0xFF for each B, G, R.
unfoldable pub widened_row : ℕ → Bytes → Bytes
widened_row width from = record {
  len = width * 4;
  at = λ i. if i % 4 == 3 then 0xff else from.at (i / 4 * 3 + i % 4);
}

-- The rows below `n`.
unfoldable pub widen_rows : Raw → ℕ → ℕ → Bytes → Option Bytes
widen_rows raw width zero scratch = some scratch
widen_rows raw width (suc n) scratch = do
  done ← widen_rows raw width n scratch
  from ← slice raw.data_ (n * raw.pitch) (n * raw.pitch + width * 3)
  put done (n * (width * 4)) (width * 4) (widened_row width from)

unfoldable pub signed_height : Bool → ℕ → ℤ
signed_height bottom_up height =
    if bottom_up then elim height [ zero ↦ pos 0 | suc n ↦ negsuc n ] else pos height

unfoldable pub offsets_of : Pixels → Offsets
offsets_of yuy2 = record { luma_at = 0; u_at = 1; v_at = 3 }
offsets_of _ = record { luma_at = 1; u_at = 0; v_at = 2 }

abbrev pub Answer : Type 0
Answer = Bool × Converter × Nv12Buffer

unfoldable pub store_planes : Converter → Nv12Buffer → Written → Answer
store_planes c dst (ok, y, uv) = (ok, c, record dst { y = y; uv = uv })

module _ (i420_to_nv12 : Bytes → ℕ → Bytes → ℕ → Bytes → ℕ → Nv12Buffer → Size → Nv12Buffer)
    (argb_to_nv12 : Bytes → ℕ → Nv12Buffer → ℕ → ℤ → Nv12Buffer) where
  unfoldable pub write_i420 : Converter → Raw → Size → Nv12Buffer → Option Answer
  write_i420 c raw size dst = do
    let luma = raw.pitch * size.height
    let chroma = raw.pitch / 2 * half_up size.height
    y ← slice raw.data_ 0 luma
    rest ← slice raw.data_ luma raw.data_.len
    u ← slice rest 0 chroma
    after ← slice rest chroma rest.len
    v ← slice after 0 chroma
    some (true, c, i420_to_nv12 y raw.pitch u (raw.pitch / 2) v (raw.pitch / 2) dst size)

  unfoldable pub write_rgb32 : Converter → Raw → Size → Nv12Buffer → Option Answer
  write_rgb32 c raw size dst = do
    rows ← slice raw.data_ 0 (raw.pitch * size.height)
    some (
      true,
      c,
      argb_to_nv12 rows raw.pitch dst size.width (signed_height raw.bottom_up size.height),
    )

  unfoldable pub write_rgb24 : Converter → Raw → Size → Nv12Buffer → Option Answer
  write_rgb24 c raw size dst = do
    let widened = size.width * 4
    scratch ← widen_rows raw size.width size.height (resize c.scratch (widened * size.height))
    some (
      true,
      record c { scratch = scratch },
      argb_to_nv12 scratch widened dst size.width (signed_height raw.bottom_up size.height),
    )

  unfoldable pub write_packed : Converter → Raw → Size → Nv12Buffer → Option Answer
  write_packed c raw size dst = do
    written ← packed_422_into raw size (offsets_of c.kind) dst.y dst.stride_y dst.uv dst.stride_uv
    some (store_planes c dst written)

  unfoldable pub write_nv12 : Converter → Raw → Size → Nv12Buffer → Option Answer
  write_nv12 c raw size dst = do
    written ← nv12_into raw.data_ raw.pitch size dst.y dst.stride_y dst.uv dst.stride_uv
    some (store_planes c dst written)

  unfoldable pub write_as : Pixels → Converter → Raw → Size → Nv12Buffer → Option Answer
  write_as nv12 = write_nv12
  write_as i420 = write_i420
  write_as yuy2 = write_packed
  write_as uyvy = write_packed
  write_as rgb32 = write_rgb32
  write_as rgb24 = write_rgb24

  unfoldable pub write : Converter → Raw → Size → Nv12Buffer → Option Answer
  write c raw size dst =
      if even_size size && readable c.kind raw size && roomy dst size.height
      then write_as c.kind c raw size dst
      else some (false, c, dst)
