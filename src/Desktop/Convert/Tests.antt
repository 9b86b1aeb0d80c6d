-- ===== src/Desktop/Convert/Tests.antt =====
-- A small frame of two rows through `Converter::write`, and its theorems there.
use ldktela.Base.{ℕ, ◌≡◌, refl, true, false, some, arith}
use ldktela.Base.Int.{ℤ}
use ldktela.Desktop.{Size, Bytes}
use ldktela.Desktop.Convert.{
  yuy2, rgb24, Raw, frame_bytes, needed, stride, minimum_pitch, can_be_bottom_up,
}
use ldktela.Desktop.Convert.Writer.{Nv12Buffer, Converter, even_size, readable, roomy, write, new}
use ldktela.Desktop.Convert.Total.{Answered}
use ldktela.Desktop.Convert.Picture.{write-Answered}
use ldktela.Desktop.Convert.Shown.{is_yuy2, Shows, write-Shows}

abbrev first_plane : Bytes → ℕ → Bytes → ℕ → Bytes → ℕ → Nv12Buffer → Size → Nv12Buffer
first_plane y py u pu v pv dst size = dst

abbrev untouched : Bytes → ℕ → Nv12Buffer → ℕ → ℤ → Nv12Buffer
untouched rows pitch dst width height = dst

abbrev two_by_two : Size
two_by_two = record { width = 2; height = 2 }

-- Rows of four bytes, six apart; byte i is i.
abbrev frame : Raw
frame = record { data_ = record { len = 12; at = λ i. i }; pitch = 6; bottom_up = true }

abbrev blank : Nv12Buffer
blank = record {
  stride_y = 4;
  stride_uv = 4;
  y = record { len = 8; at = λ i. 0 };
  uv = record { len = 4; at = λ i. 0 };
}

padded_row : frame_bytes rgb24 (record { width = 3; height = 2 }) ≡ 24
unfolding frame_bytes needed stride
padded_row = refl

-- A frame one byte short is refused.
write-Answered_example :
    Answered
      (write first_plane untouched
        (new rgb24)
        (record { data_ = record { len = 11; at = λ i. i }; pitch = 6; bottom_up = false })
        two_by_two
        blank)
      blank
write-Answered_example =
    write-Answered first_plane untouched (new rgb24)
      (record { data_ = record { len = 11; at = λ i. i }; pitch = 6; bottom_up = false }) two_by_two
      blank

write-Shows_example :
    let c : Converter = record { kind = yuy2; scratch = record { len = 0; at = λ i. 0 } } in
    (after : Nv12Buffer) × (write first_plane untouched c frame two_by_two blank
      ≡ some (true, c, after))
    × Shows is_yuy2 frame two_by_two after
unfolding even_size readable needed minimum_pitch can_be_bottom_up roomy
write-Shows_example =
    write-Shows first_plane untouched is_yuy2 (record { len = 0; at = λ i. 0 }) frame two_by_two
      blank refl refl refl (omega arith) (omega arith)
