-- ===== src/Presence/Rows.antt =====
-- The rows that the queries of crates/db/src/repo/presence.rs and crates/db/src/repo/sessions.rs leave.
use ldktela.Base.{
  ℕ, ◌+◌, ◌≤◌, ◌≡◌, refl, Bool, false, ◌&&◌, ◌||◌, List, [], ◌∷◌, ◌==◌, any, if◌then◌else◌, arith,
}
use ldktela.Base.Map.{insert, remove, retain, modify}
use ldktela.Protocol.{PublicationSource, screen, camera}
use ldktela.Presence.{
  Table, PresenceRow, ShareSessionRow, is_some, start_row, stop_row, open_for, open_session,
  close_session, observe_viewers,
}

-- A row says `publishing` exactly if one of its sources is on the air.
abbrev pub Told : PresenceRow → Type 0
Told row = row.publishing ≡ (is_some row.screen_since || is_some row.camera_since)

abbrev pub AllTold : Table → Type 0
AllTold [] = Unit
AllTold (e ∷ rows) = Told e.1 × AllTold rows

pub insert-AllTold :
    (user : ℕ) (row : PresenceRow) (rows : Table)
    → Told row
    → AllTold rows
    → AllTold (insert user row rows)
unfolding insert
insert-AllTold user row [] t h = (t, tt)
insert-AllTold user row (e ∷ rows) t h = ground (arith, insert-AllTold user row rows t h.1)

pub remove-AllTold : (user : ℕ) (rows : Table) → AllTold rows → AllTold (remove user rows)
unfolding remove
remove-AllTold user [] h = tt
remove-AllTold user (e ∷ rows) h = ground (arith, remove-AllTold user rows h.1)

pub retain-AllTold :
    (p : ℕ → PresenceRow → Bool) (rows : Table) → AllTold rows → AllTold (retain p rows)
unfolding retain
retain-AllTold p [] h = tt
retain-AllTold p (e ∷ rows) h = ground (arith, retain-AllTold p rows h.1)

pub modify-AllTold :
    (user : ℕ) (f : PresenceRow → PresenceRow) (rows : Table)
    → ((row : PresenceRow) → Told row → Told (f row))
    → AllTold rows
    → AllTold (modify user f rows)
unfolding modify
modify-AllTold user f [] k h = tt
modify-AllTold user f (e ∷ rows) k h = ground (arith, k e.1 h.0, modify-AllTold user f rows k h.1)

pub start_row-Told :
    (source : PublicationSource) (now : ℕ) (row : PresenceRow)
    → Told row
    → Told (start_row source now row)
unfolding start_row
start_row-Told screen now row h = ground arith
start_row-Told camera now row h = ground arith

pub stop_row-Told :
    (source : PublicationSource) (row : PresenceRow) → Told row → Told (stop_row source row)
unfolding stop_row
stop_row-Told screen row h = ground arith
stop_row-Told camera row h = ground arith

-- The open sessions of a publisher in a channel.
unfoldable pub open_count : ℕ → ℕ → List ShareSessionRow → ℕ
open_count c u [] = 0
open_count c u (s ∷ rows) =
    let rest : ℕ = open_count c u rows in if open_for c u s then 1 + rest else rest

pub open_count-none :
    (c u : ℕ) (rows : List ShareSessionRow)
    → any (open_for c u) rows ≡ false
    → open_count c u rows ≡ 0
unfolding open_count
open_count-none c u [] h = refl
open_count-none c u (s ∷ rows) h = ground (arith, open_count-none c u rows)

pub open_count-open :
    (c u id channel user now : ℕ) (rows : List ShareSessionRow)
    → open_count c u (open_session rows id channel user now) ≡ (
        if any (open_for channel user) rows
        then open_count c u rows
        else if channel == c && user == u
        then 1 + open_count c u rows
        else open_count c u rows)
unfolding open_session open_count open_for
open_count-open c u id channel user now rows = ground arith

pub open_count-close :
    (c u channel user now : ℕ) (rows : List ShareSessionRow)
    → open_count c u (close_session rows channel user now)
      ≡ (if channel == c && user == u then 0 else open_count c u rows)
unfolding close_session open_count open_for
open_count-close c u channel user now [] = ground arith
open_count-close c u channel user now (s ∷ rows) =
    ground (arith, open_count-close c u channel user now rows)

pub open_count-observe :
    (c u channel viewers : ℕ) (rows : List ShareSessionRow)
    → open_count c u (observe_viewers rows channel viewers) ≡ open_count c u rows
unfolding observe_viewers open_count open_for
open_count-observe c u channel viewers [] = refl
open_count-observe c u channel viewers (s ∷ rows) =
    ground (arith, open_count-observe c u channel viewers rows)

unfoldable pub Single : List ShareSessionRow → Type 0
Single rows = (c u : ℕ) → open_count c u rows ≤ 1

pub open-Single :
    (id channel user now : ℕ) (rows : List ShareSessionRow)
    → Single rows
    → Single (open_session rows id channel user now)
unfolding Single
open-Single id channel user now rows h c u =
    ground (
      arith,
      open_count-open c u id channel user now rows,
      open_count-none channel user rows,
      h c u,
    )

pub close-Single :
    (channel user now : ℕ) (rows : List ShareSessionRow)
    → Single rows
    → Single (close_session rows channel user now)
unfolding Single
close-Single channel user now rows h c u =
    ground (arith, open_count-close c u channel user now rows, h c u)
