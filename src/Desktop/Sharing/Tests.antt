-- ===== src/Desktop/Sharing/Tests.antt =====
-- Concrete runs of the commands that share.
use ldktela.Base.{ℕ, ◌≡◌, refl, true, false, Option, none, some, List, [], ◌∷◌}
use ldktela.Protocol.{camera}
use ldktela.Desktop.Sharing.{
  idle, is_screen_on, is_camera_on, close_if_idle, connect, publish_audio, publish_screen,
  publish_camera, on_publisher, ScreenAnswers, share_on, share_start, CameraAnswers, camera_on,
  camera_start, Command, starts_share, starts_camera, stops, step, run, Publisher,
}
use ldktela.Desktop.Sharing.Invariant.{is_open, is_on_air, run-Matched}

abbrev camera_works : CameraAnswers
camera_works = record { connected = true; opened = true; video = some 1 }

-- The server takes the picture of the screen and refuses its sound.
abbrev sound_refused : ScreenAnswers
sound_refused = record {
  source_id = true;
  connected = true;
  video = some 2;
  with_audio = true;
  audio = none;
  captured = true;
  sound = true;
}

abbrev tracks_in : Option Publisher → List ℕ
tracks_in none = []
tracks_in (some p) = p.tracks

-- With the camera on the air, the refused start leaves the picture's track in the room.
picture_left :
    let live = run idle (starts_camera camera_works ∷ starts_share sound_refused ∷ []) in
    (is_screen_on live ≡ false) × (tracks_in live.publisher ≡ 2 ∷ 1 ∷ [])
unfolding run step camera_start camera_on share_start share_on on_publisher publish_screen
    publish_audio publish_camera connect close_if_idle is_screen_on is_camera_on idle
picture_left = (refl, refl)

run-Matched_example :
    let cs : List Command =
      starts_camera camera_works ∷ starts_share sound_refused ∷ stops camera ∷ [] in
    is_open (run idle cs) ≡ is_on_air (run idle cs)
run-Matched_example =
    run-Matched (starts_camera camera_works ∷ starts_share sound_refused ∷ stops camera ∷ [])
