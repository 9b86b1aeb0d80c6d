-- ===== src/Gateway/Connection/Window.antt =====
-- How many frames `allow_frame` of crates/api/src/gateway/mod.rs lets through. The window starts again
-- at the first frame after it ends, so an interval as long as a window can meet two of them.
use ldktela.Base.{
  Option, ℕ, ◌+◌, ◌-◌, ◌≤◌, ◌<◌, ◌≡◌, refl, Bool, true, false, ◌&&◌, List, [], ◌∷◌, leb, ltb,
  if◌then◌else◌, Bool-cases, inl, inr, arith,
}
use ldktela.Gateway.Connection.{Connection, start_window, allow_frame}

-- The connection after frames at these times, as long as every one is let through.
unfoldable pub all_allowed : Connection → List ℕ → Bool
all_allowed c [] = true
all_allowed c (now ∷ times) =
    let rest : Bool = all_allowed (allow_frame c now).0 times in (allow_frame c now).1 && rest

-- Times that do not go back, from `start` on.
abbrev pub InOrder : ℕ → List ℕ → Type 0
InOrder start [] = Unit
InOrder start (now ∷ times) = (start ≤ now) × InOrder now times

-- How many of the times lie in the window-long interval that starts at `from`.
unfoldable pub count_from : ℕ → List ℕ → ℕ
count_from from [] = 0
count_from from (now ∷ times) =
    let rest : ℕ = count_from from times in
    if leb from now && leb now (from + 60_000) then rest + 1 else rest

past :
    (from start : ℕ) (times : List ℕ)
    → from + 60_000 < start
    → InOrder start times
    → count_from from times ≡ 0
unfolding count_from
past from start [] h o = refl
past from start (now ∷ times) h (o, os) = ground (arith, past from now times (omega arith) os)

next_frame : Connection → Connection
next_frame c = record c { frames_in_window = c.frames_in_window + 1 }

first_frame : Connection → ℕ → Connection
first_frame c now = record c { window_started = now; frames_in_window = 1 }

kept :
    (c : Connection) (now : ℕ)
    → ltb 60_000 (now - c.window_started) ≡ false
    → allow_frame c now ≡ (next_frame c, leb (c.frames_in_window + 1) 30)
unfolding allow_frame start_window next_frame
kept c now e = rw (start_window, e) refl

renewed :
    (c : Connection) (now : ℕ)
    → ltb 60_000 (now - c.window_started) ≡ true
    → allow_frame c now ≡ (first_frame c now, true)
unfolding allow_frame start_window first_frame
renewed c now e = rw (start_window, e) refl

all_allowed_kept :
    (c : Connection) (now : ℕ) (times : List ℕ)
    → ltb 60_000 (now - c.window_started) ≡ false
    → all_allowed c (now ∷ times) ≡ true
    → (c.frames_in_window + 1 ≤ 30) × (all_allowed (next_frame c) times ≡ true)
unfolding all_allowed
all_allowed_kept c now times e h =
    let both : (leb (c.frames_in_window + 1) 30 && all_allowed (next_frame c) times) ≡ true =
      rw (all_allowed, kept c now e) at h in
    (ground arith, ground arith)

all_allowed_renewed :
    (c : Connection) (now : ℕ) (times : List ℕ)
    → ltb 60_000 (now - c.window_started) ≡ true
    → all_allowed c (now ∷ times) ≡ true
    → all_allowed (first_frame c now) times ≡ true
unfolding all_allowed
all_allowed_renewed c now times e h = rw (all_allowed, renewed c now e) at h

-- What is left of a window that started no earlier than the interval.
one_window :
    (from : ℕ) (c : Connection) (last : ℕ) (times : List ℕ)
    → from ≤ c.window_started
    → c.window_started ≤ last
    → InOrder last times
    → c.frames_in_window ≤ 30
    → all_allowed c times ≡ true
    → count_from from times + c.frames_in_window ≤ 30
unfolding count_from next_frame
one_window from c last [] hf hl o room h = omega arith
one_window from c last (now ∷ times) hf hl (o, os) room h =
    elim (Bool-cases (ltb 60_000 (now - c.window_started))) [
      | inl e ↦ ground (arith, past from now times (ground arith) os)
      | inr e ↦
          let (less, allowed) = all_allowed_kept c now times e h in
          ground (arith, one_window from (next_frame c) now times hf (omega arith) os less allowed)
    ]

-- Inside the interval, the window may have started before it, and one more is met.
two_windows :
    (from : ℕ) (c : Connection) (last : ℕ) (times : List ℕ)
    → from ≤ last
    → c.window_started ≤ last
    → InOrder last times
    → c.frames_in_window ≤ 30
    → all_allowed c times ≡ true
    → count_from from times + c.frames_in_window ≤ 60
unfolding count_from next_frame first_frame
two_windows from c last [] hf hl o room h = omega arith
two_windows from c last (now ∷ times) hf hl (o, os) room h =
    elim (Bool-cases (ltb 60_000 (now - c.window_started))) [
      | inl e ↦
          let allowed = all_allowed_renewed c now times e h in
          ground (
            arith,
            one_window from (first_frame c now) now times (omega arith) (omega arith) os
                (omega arith) allowed,
          )
      | inr e ↦
          let (less, allowed) = all_allowed_kept c now times e h in
          ground (
            arith,
            two_windows from (next_frame c) now times (omega arith) (omega arith) os less allowed,
          )
    ]

any_windows :
    (from : ℕ) (c : Connection) (last : ℕ) (times : List ℕ)
    → c.window_started ≤ last
    → InOrder last times
    → c.frames_in_window ≤ 30
    → all_allowed c times ≡ true
    → count_from from times ≤ 60
unfolding count_from next_frame first_frame
any_windows from c last [] hl o room h = omega arith
any_windows from c last (now ∷ times) hl (o, os) room h =
    elim (Bool-cases (ltb 60_000 (now - c.window_started))) [
      | inl e ↦
          let allowed = all_allowed_renewed c now times e h in
          elim (Bool-cases (leb from now)) [
            | inl inside ↦ ground (
              arith,
              two_windows from (first_frame c now) now times (ground arith) (omega arith) os
                  (omega arith) allowed,
            )
            | inr before ↦ ground (
              arith,
              any_windows from (first_frame c now) now times (omega arith) os (omega arith) allowed,
            )
          ]
      | inr e ↦
          let (less, allowed) = all_allowed_kept c now times e h in
          elim (Bool-cases (leb from now)) [
            | inl inside ↦ ground (
              arith,
              two_windows from (next_frame c) now times (ground arith) (omega arith) os less
                  allowed,
            )
            | inr before ↦
                ground
                  (arith, any_windows from (next_frame c) now times (omega arith) os less allowed)
          ]
    ]

-- A connection opened at `start` whose frames were all let through, at times that do not go back, had at
-- most 60 of them in any 60 seconds: 30 in a window, and an interval meets two windows at most.
pub count_from-all_allowed :
    (session : Option ℕ) (start from : ℕ) (times : List ℕ)
    → InOrder start times
    → all_allowed (record { session = session; window_started = start; frames_in_window = 0 }) times
      ≡ true
    → count_from from times ≤ 60
count_from-all_allowed session start from times o h =
    any_windows from (record { session = session; window_started = start; frames_in_window = 0 })
      start times (omega arith) o (omega arith) h
