-- ===== src/Desktop/Camera.antt =====
-- The format that a camera is asked for: `choose_format` of desktop/src-tauri/src/camera/mod.rs.
--
-- Widths and heights are `u32`, so that an area does not wrap in the `u64` of the source.
mod Search
pub mod Choice
mod Tests
use ldktela.Base.{
  ℕ, ◌-◌, ◌*◌, Bool, true, false, ◌&&◌, ◌||◌, Option, none, some, List, [], ◌∷◌, leb, ltb, ◌==◌,
  if◌then◌else◌, keep_if,
}
use ldktela.Desktop.{Size}

pub record Format : Type 0 where
  pub size : Size
  pub fps : ℕ

unfoldable pub fits : Size → Format → Bool
fits ceiling f = leb f.size.width ceiling.width && leb f.size.height ceiling.height

unfoldable pub area : Format → ℕ
area f = f.size.width * f.size.height

-- `Iterator::min_by_key`: the first of the least ones, by the order of the keys.
unfoldable pub least : (Format → Format → Bool) → Format → List Format → Format
least less best [] = best
least less best (f ∷ fs) = least less (if less f best then f else best) fs

unfoldable pub min_by : (Format → Format → Bool) → List Format → Option Format
min_by less [] = none
min_by less (f ∷ fs) = some (least less f fs)

unfoldable pub is_smaller : Format → Format → Bool
is_smaller f g = ltb (area f) (area g)

-- A rate below the one that was asked for is worse than any above it.
unfoldable pub is_nearer : ℕ → Format → Format → Bool
is_nearer fps f g =
    if leb fps f.fps
    then (if leb fps g.fps then ltb (f.fps - fps) (g.fps - fps) else true)
    else (if leb fps g.fps then false else ltb (fps - f.fps) (fps - g.fps))

unfoldable pub max_area : ℕ → List Format → ℕ
max_area best [] = best
max_area best (f ∷ fs) = max_area (if ltb best (area f) then area f else best) fs

unfoldable pub choose_in : List Format → ℕ → List Format → Option Format
choose_in offered fps [] = min_by is_smaller offered
choose_in offered fps (f ∷ pool) =
    let best_area : ℕ = max_area (area f) pool in
    min_by (is_nearer fps) (keep_if (λ g. area g == best_area) (f ∷ pool))

unfoldable pub choose_format : List Format → Size → ℕ → Option Format
choose_format offered ceiling fps = choose_in offered fps (keep_if (fits ceiling) offered)
