-- ===== src/Desktop/Sharing/Invariant.antt =====
-- The connection of desktop/src-tauri/src/share.rs is open as long as something is on the air.
use ldktela.Base.{
  Bool, true, false, ◌||◌, Option, none, some, List, [], ◌∷◌, ◌≡◌, refl, sym, ap, ◌∙◌, Bool-cases,
  Option-cases, inl, inr,
}
use ldktela.Protocol.{PublicationSource, screen, camera}
use ldktela.Desktop.Sharing.{
  Publisher, Live, idle, is_screen_on, is_camera_on, close_if_idle, connect, publish_screen,
  publish_camera, on_publisher, unpublish_from, stop_source, release, ScreenAnswers, capture_screen,
  share_on, share_start, CameraAnswers, camera_on, camera_start, Command, starts_share,
  starts_camera, stops, ended, step, run,
}

abbrev pub is_open : Live → Bool
is_open live = elim live.publisher [ none ↦ false | some p ↦ true ]

abbrev pub is_on_air : Live → Bool
is_on_air live = is_screen_on live || live.camera_active

-- Whether the connection is open is whether a source is on the air.
abbrev pub Matched : Live → Type 0
Matched live = is_open live ≡ is_on_air live

abbrev live_of : Option Publisher → Option Bool → Bool → Live
live_of p s c = record { publisher = p; screen_active = s; camera_active = c }

close_open : (live : Live) → is_open live ≡ true → Matched (close_if_idle live)
unfolding close_if_idle is_screen_on
close_open live = go live.publisher live.screen_active live.camera_active
  where
    go :
        (p : Option Publisher) (s : Option Bool) (c : Bool)
        → is_open (live_of p s c) ≡ true
        → Matched (close_if_idle (live_of p s c))
    go none s c h = cc
    go (some p) none false h = refl
    go (some p) none true h = refl
    go (some p) (some a) c h = refl

unpublish_from-open :
    (source : PublicationSource) (live : Live)
    → is_open live ≡ true
    → is_open (unpublish_from source live) ≡ true
unfolding unpublish_from
unpublish_from-open source live = go live.publisher
  where
    go :
        (p : Option Publisher)
        → is_open (live_of p live.screen_active live.camera_active) ≡ true
        → is_open (unpublish_from source (live_of p live.screen_active live.camera_active)) ≡ true
    go none h = cc
    go (some p) h = refl

on_publisher-open :
    (f : Publisher → Publisher × Bool) (live : Live)
    → is_open live ≡ true
    → is_open (on_publisher f live).0 ≡ true
unfolding on_publisher
on_publisher-open f live = go live.publisher
  where
    go :
        (p : Option Publisher)
        → is_open (live_of p live.screen_active live.camera_active) ≡ true
        → is_open (on_publisher f (live_of p live.screen_active live.camera_active)).0 ≡ true
    go none h = cc
    go (some p) h = refl

capture_screen-Matched :
    (a : ScreenAnswers) (live : Live) → is_open live ≡ true → Matched (capture_screen a live).0
unfolding capture_screen is_screen_on
capture_screen-Matched a live h = elim (Bool-cases a.captured) [
  | inl e ↦ rw (capture_screen, e) h
  | inr e ↦
      rw (capture_screen, e)
        (close_open (unpublish_from screen live) (unpublish_from-open screen live h))
]

share_on-Matched :
    (a : ScreenAnswers) (live : Live) → is_open live ≡ true → Matched (share_on a live).0
unfolding share_on
share_on-Matched a live h =
    let out : Live × Bool = on_publisher (publish_screen a.video a.with_audio a.audio) live in
    let opened = on_publisher-open (publish_screen a.video a.with_audio a.audio) live h in
    elim (Bool-cases out.1) [
      | inl e ↦ rw (share_on, e) (capture_screen-Matched a out.0 opened)
      | inr e ↦ rw (share_on, e) (close_open out.0 opened)
    ]

-- A connection that is there, or is made, is open.
connect-open :
    (accepted : Bool) (live ready : Live)
    → connect accepted live ≡ some ready
    → is_open ready ≡ true
unfolding connect
connect-open accepted live ready = go accepted live.publisher
  where
    opened : Option Live → Bool
    opened o = elim o [ none ↦ true | some l ↦ is_open l ]

    go :
        (accepted : Bool) (p : Option Publisher)
        → connect accepted (live_of p live.screen_active live.camera_active) ≡ some ready
        → is_open ready ≡ true
    go true none h = sym (ap opened h)
    go false none h = cc
    go accepted (some p) h = sym (ap opened h)

either_true : (b : Bool) → (b || true) ≡ true
either_true true = refl
either_true false = refl

camera_on-Matched :
    (a : CameraAnswers) (live : Live) → is_open live ≡ true → Matched (camera_on a live).0
unfolding camera_on is_screen_on
camera_on-Matched a live h =
    let out : Live × Bool = on_publisher (publish_camera a.video) live in
    let opened = on_publisher-open (publish_camera a.video) live h in
    elim (Bool-cases a.opened) [
      | inl e ↦ elim (Bool-cases out.1) [
        | inl t ↦ rw (camera_on, e, t) (opened ∙ sym (either_true (is_screen_on out.0)))
        | inr t ↦ rw (camera_on, e, t) (close_open out.0 opened)
      ]
      | inr e ↦ rw (camera_on, e) (close_open live h)
    ]

share_start-Matched :
    (a : ScreenAnswers) (live : Live) → Matched live → Matched (share_start a live).0
unfolding share_start
share_start-Matched a live h = elim (Bool-cases (is_screen_on live)) [
  | inl e ↦ rw (share_start, e) h
  | inr e ↦ elim (Bool-cases a.source_id) [
    | inl i ↦ elim (Option-cases (connect a.connected live)) [
      | inl n ↦ rw (share_start, e, i, n) h
      | inr (ready, r) ↦
          rw (share_start, e, i, r)
            (share_on-Matched a ready (connect-open a.connected live ready r))
    ]
    | inr i ↦ rw (share_start, e, i) h
  ]
]

camera_start-Matched :
    (a : CameraAnswers) (live : Live) → Matched live → Matched (camera_start a live).0
unfolding camera_start
camera_start-Matched a live h = elim (Bool-cases (is_camera_on live)) [
  | inl e ↦ rw (camera_start, e) h
  | inr e ↦ elim (Option-cases (connect a.connected live)) [
    | inl n ↦ rw (camera_start, e, n) h
    | inr (ready, r) ↦
        rw (camera_start, e, r) (camera_on-Matched a ready (connect-open a.connected live ready r))
  ]
]

release-Matched :
    (source : PublicationSource) (live : Live) → Matched live → Matched (release source live)
unfolding release stop_source unpublish_from close_if_idle is_screen_on
release-Matched source live = go source live.publisher live.screen_active live.camera_active
  where
    go :
        (source : PublicationSource) (p : Option Publisher) (s : Option Bool) (c : Bool)
        → Matched (live_of p s c)
        → Matched (release source (live_of p s c))
    go screen (some p) s c h =
        let stopped : Live = live_of (some p) none c in
        close_open (unpublish_from screen stopped) (unpublish_from-open screen stopped refl)
    go camera (some p) s c h =
        let stopped : Live = live_of (some p) s false in
        close_open (unpublish_from camera stopped) (unpublish_from-open camera stopped refl)
    go screen none none false h = refl
    go camera none none false h = refl
    go source none (some a) c h = cc
    go source none none true h = cc

step-Matched : (live : Live) (c : Command) → Matched live → Matched (step live c)
unfolding step
step-Matched live (starts_share a) h = share_start-Matched a live h
step-Matched live (starts_camera a) h = camera_start-Matched a live h
step-Matched live (stops source) h = release-Matched source live h
step-Matched live (ended source) h = release-Matched source live h

run_from-Matched : (cs : List Command) (live : Live) → Matched live → Matched (run live cs)
unfolding run
run_from-Matched [] live h = h
run_from-Matched (c ∷ cs) live h = run_from-Matched cs (step live c) (step-Matched live c h)

-- After any commands, whatever Windows and the media server answered, the connection that publishes is open
-- if a screen or a camera is on the air, and closed if neither is: no failed start leaves it behind, and
-- no source that ends takes the other's.
pub run-Matched : (cs : List Command) → is_open (run idle cs) ≡ is_on_air (run idle cs)
unfolding idle is_screen_on
run-Matched cs = run_from-Matched cs idle refl
