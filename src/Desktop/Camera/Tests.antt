-- ===== src/Desktop/Camera/Tests.antt =====
-- Formats of a camera at concrete inputs.
use ldktela.Base.{ℕ, ◌≡◌, refl, some, [], ◌∷◌}
use ldktela.Desktop.{Size}
use ldktela.Desktop.Camera.{
  Format, choose_format, choose_in, fits, area, least, min_by, is_smaller, is_nearer, max_area,
}
use ldktela.Desktop.Camera.Choice.{choose_format-Chosen, Chosen}

abbrev sized : ℕ → ℕ → ℕ → Format
sized width height fps = record { size = record { width = width; height = height }; fps = fps }

abbrev hd : Size
hd = record { width = 1280; height = 720 }

choose_format-Chosen_example :
    (f : Format) × ((choose_format
          (sized 640 480 30 ∷ sized 1280 720 24 ∷ sized 1280 720 60 ∷ [])
          hd
          30
        ≡ some f)
      × Chosen hd 30 (sized 640 480 30 ∷ sized 1280 720 24 ∷ sized 1280 720 60 ∷ []) f)
choose_format-Chosen_example =
    choose_format-Chosen (sized 640 480 30) (sized 1280 720 24 ∷ sized 1280 720 60 ∷ []) hd 30

above_beats_below :
    choose_format (sized 640 480 30 ∷ sized 1280 720 24 ∷ sized 1280 720 60 ∷ []) hd 30
    ≡ some (sized 1280 720 60)
unfolding choose_format choose_in fits area least min_by is_smaller is_nearer max_area
above_beats_below = refl

smallest_of_the_large :
    choose_format (sized 3840 2160 30 ∷ sized 1920 1080 30 ∷ []) hd 30 ≡ some (sized 1920 1080 30)
unfolding choose_format choose_in fits area least min_by is_smaller is_nearer max_area
smallest_of_the_large = refl
