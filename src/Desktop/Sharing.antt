-- ===== src/Desktop/Sharing.antt =====
-- What is on the air: desktop/src-tauri/src/share.rs, and the tracks of
-- desktop/src-tauri/src/publisher.rs.
--
-- The lock is held for the whole of a command, so a command is one step. What Windows and the media
-- server answer comes as arguments: a published track's id or none where it is refused, and whether a
-- connection, a capture or a device was opened. Frames, previews and statistics are not modelled. A track
-- that is taken off is taken off: the source only logs the server's refusal.
pub mod Invariant
mod Tests
use ldktela.Base.{
  ℕ, Bool, true, false, ◌&&◌, ◌||◌, Option, none, some, List, [], ◌∷◌, if◌then◌else◌,
}
use ldktela.Base.Set
use ldktela.Protocol.{PublicationSource, screen, camera}

-- The ids of a source's tracks.
pub record Published : Type 0 where
  pub video : Option ℕ
  pub audio : Option ℕ

unfoldable pub nothing : Published
nothing = record { video = none; audio = none }

-- `tracks` is what the room has from this connection.
pub record Publisher : Type 0 where
  pub screen_held : Published
  pub camera_held : Published
  pub tracks : List ℕ

-- A source on the air; for a screen, whether its sound is captured.
pub record Live : Type 0 where
  pub publisher : Option Publisher
  pub screen_active : Option Bool
  pub camera_active : Bool

unfoldable pub idle : Live
idle = record { publisher = none; screen_active = none; camera_active = false }

unfoldable pub is_screen_on : Live → Bool
is_screen_on live = elim live.screen_active [ none ↦ false | some audio ↦ true ]

unfoldable pub is_camera_on : Live → Bool
is_camera_on live = live.camera_active

unfoldable pub close_if_idle : Live → Live
close_if_idle live =
    if is_screen_on live || live.camera_active then live else record live { publisher = none }

-- The connection is reused where there is one.
unfoldable pub connect : Bool → Live → Option Live
connect accepted live = elim live.publisher [
  | some publisher ↦ some live
  | none ↦
      if accepted
      then some (record live {
        publisher = some (record { screen_held = nothing; camera_held = nothing; tracks = [] });
      })
      else none
]

unfoldable pub take_off : Option ℕ → List ℕ → List ℕ
take_off none tracks = tracks
take_off (some sid) tracks = Set.remove sid tracks

unfoldable pub take_off_all : Published → List ℕ → List ℕ
take_off_all held tracks = take_off held.audio (take_off held.video tracks)

unfoldable pub unpublish : PublicationSource → Publisher → Publisher
unpublish screen p = record p {
  screen_held = nothing;
  tracks = take_off_all p.screen_held p.tracks;
}
unpublish camera p = record p {
  camera_held = nothing;
  tracks = take_off_all p.camera_held p.tracks;
}

-- The audio of a screen is asked for, and its track is `audio`.
unfoldable pub publish_audio : Option ℕ → Publisher → Publisher × Bool
publish_audio none p = (p, false)
publish_audio (some sid) p = (
  record p { screen_held = record p.screen_held { audio = some sid }; tracks = sid ∷ p.tracks },
  true,
)

unfoldable pub publish_screen : Option ℕ → Bool → Option ℕ → Publisher → Publisher × Bool
publish_screen none with_audio audio p = (p, false)
publish_screen (some sid) with_audio audio p =
    let shown : Publisher = record p {
      screen_held = record p.screen_held { video = some sid };
      tracks = sid ∷ p.tracks;
    } in
    if with_audio then publish_audio audio shown else (shown, true)

unfoldable pub publish_camera : Option ℕ → Publisher → Publisher × Bool
publish_camera none p = (p, false)
publish_camera (some sid) p = (
  record p { camera_held = record p.camera_held { video = some sid }; tracks = sid ∷ p.tracks },
  true,
)

-- What a call on the publisher leaves, where there is one.
unfoldable pub on_publisher : (Publisher → Publisher × Bool) → Live → Live × Bool
on_publisher f live = elim live.publisher [
  | none ↦ (live, false)
  | some p ↦ (record live { publisher = some (f p).0 }, (f p).1)
]

unfoldable pub unpublish_from : PublicationSource → Live → Live
unpublish_from source live = elim live.publisher [
  | none ↦ live
  | some p ↦ record live { publisher = some (unpublish source p) }
]

unfoldable pub stop_source : PublicationSource → Live → Live
stop_source screen live = record live { screen_active = none }
stop_source camera live = record live { camera_active = false }

unfoldable pub release : PublicationSource → Live → Live
release source live = close_if_idle (unpublish_from source (stop_source source live))

pub data ShareFailure : Type 0 where
  already_sharing bad_source not_connected not_published not_captured : ShareFailure

-- What is answered while a screen starts: whether its id can be read, and each outside call.
pub record ScreenAnswers : Type 0 where
  pub source_id : Bool
  pub connected : Bool
  pub video : Option ℕ
  pub with_audio : Bool
  pub audio : Option ℕ
  pub captured : Bool
  pub sound : Bool

unfoldable pub capture_screen : ScreenAnswers → Live → Live × Option ShareFailure
capture_screen a live =
    if a.captured
    then (record live { screen_active = some a.sound }, none)
    else (close_if_idle (unpublish_from screen live), some not_captured)

unfoldable pub share_on : ScreenAnswers → Live → Live × Option ShareFailure
share_on a live =
    let out : Live × Bool = on_publisher (publish_screen a.video a.with_audio a.audio) live in
    if out.1 then capture_screen a out.0 else (close_if_idle out.0, some not_published)

unfoldable pub share_start : ScreenAnswers → Live → Live × Option ShareFailure
share_start a live =
    if is_screen_on live
    then (live, some already_sharing)
    else if a.source_id
    then elim (connect a.connected live) [
      | none ↦ (live, some not_connected)
      | some ready ↦ share_on a ready
    ]
    else (live, some bad_source)

pub record CameraAnswers : Type 0 where
  pub connected : Bool
  pub opened : Bool
  pub video : Option ℕ

unfoldable pub camera_on : CameraAnswers → Live → Live × Option ShareFailure
camera_on a live =
    let out : Live × Bool = on_publisher (publish_camera a.video) live in
    if a.opened
    then if out.1
      then (record out.0 { camera_active = true }, none)
      else (close_if_idle out.0, some not_published)
    else (close_if_idle live, some not_captured)

unfoldable pub camera_start : CameraAnswers → Live → Live × Option ShareFailure
camera_start a live =
    if is_camera_on live then (live, some already_sharing) else elim (connect a.connected live) [
      | none ↦ (live, some not_connected)
      | some ready ↦ camera_on a ready
    ]

-- The commands; `ended` is a source that gave up or whose connection was lost.
pub data Command : Type 0 where
  starts_share : ScreenAnswers → Command
  starts_camera : CameraAnswers → Command
  stops ended : PublicationSource → Command

unfoldable pub step : Live → Command → Live
step live (starts_share a) = (share_start a live).0
step live (starts_camera a) = (camera_start a live).0
step live (stops source) = release source live
step live (ended source) = release source live

unfoldable pub run : Live → List Command → Live
run live [] = live
run live (c ∷ cs) = run (step live c) cs
