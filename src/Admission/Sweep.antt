-- ===== src/Admission/Sweep.antt =====
-- Who is left in a room after the revocation sweep (`sweep_channel` of crates/bot/src/revoke.rs), and
-- what a refused token request leaves (crates/api/src/routes/rooms.rs).
use ldktela.Base.{
  ℕ, ◌≡◌, refl, ◌∙◌, inl, inr, Bool, true, not, ◌&&◌, none, some, [], ◌∷◌, ◌==◌, any, Bool-cases,
  if◌then◌else◌, arith,
}
use ldktela.Base.Int.{ℤ}
use ldktela.Base.Map.{get, remove, get-remove}
use ldktela.Replica.{Replica}
use ldktela.Presence.{Table, PresenceRow, by_arrival, list_by_channel}
use ldktela.Admission.{may_stay, sweep_rows, sweep_channel}

listed : ℕ → Table → Bool
listed u rows = any (λ e. e.0 == u) rows

listed-by_arrival :
    (u : ℕ) (e : ℕ × PresenceRow) (rows : Table)
    → listed u (by_arrival e rows) ≡ (if e.0 == u then true else listed u rows)
unfolding by_arrival listed
listed-by_arrival u e [] = ground arith
listed-by_arrival u e (x ∷ rows) = ground (arith, listed-by_arrival u e rows)

-- Everybody in the channel is listed.
listed-list_by_channel :
    (u c : ℕ) (row : PresenceRow) (rows : Table)
    → get u rows ≡ some row
    → row.discord_channel_id ≡ c
    → listed u (list_by_channel rows c) ≡ true
unfolding get list_by_channel
listed-list_by_channel u c row [] h e = cc
listed-list_by_channel u c row (x ∷ rows) h e =
    ground
      (arith, listed-by_arrival u x (list_by_channel rows c), listed-list_by_channel u c row rows)

get-sweep_rows :
    (r : Replica) (discord_of : ℕ → ℤ) (c u : ℕ) (ps rows : Table)
    → get u (sweep_rows r discord_of c ps rows)
      ≡ (if listed u ps && not (may_stay r discord_of c u) then none else get u rows)
unfolding sweep_rows listed
get-sweep_rows r discord_of c u [] rows = refl
get-sweep_rows r discord_of c u (p ∷ ps) rows = elim (Bool-cases (may_stay r discord_of c p.0)) [
  | inl stays ↦ rw (stays, sweep_rows) (ground (arith, get-sweep_rows r discord_of c u ps rows))
  | inr goes ↦
      rw (goes, sweep_rows)
        (ground
          (arith, get-sweep_rows r discord_of c u ps (remove p.0 rows), get-remove p.0 u rows))
]

-- A sweep adds and changes no row.
pub get-sweep_channel :
    (r : Replica) (discord_of : ℕ → ℤ) (c u : ℕ) (row : PresenceRow) (rows : Table)
    → get u (sweep_channel r discord_of c rows) ≡ some row
    → get u rows ≡ some row
unfolding sweep_channel
get-sweep_channel r discord_of c u row rows h =
    ground (arith, get-sweep_rows r discord_of c u (list_by_channel rows c) rows)

-- Whoever is still in a channel after its sweep may stay: the replica lets them join it, or their
-- Discord id is not a `u64`.
pub sweep_channel-allowed :
    (r : Replica) (discord_of : ℕ → ℤ) (c u : ℕ) (row : PresenceRow) (rows : Table)
    → get u (sweep_channel r discord_of c rows) ≡ some row
    → row.discord_channel_id ≡ c
    → may_stay r discord_of c u ≡ true
unfolding sweep_channel
sweep_channel-allowed r discord_of c u row rows here inside = ground (
  arith,
  get-sweep_rows r discord_of c u (list_by_channel rows c) rows,
  listed-list_by_channel u c row rows,
)

-- Whoever may stay keeps the same row in the sweep, wherever they are.
pub sweep_channel-kept :
    (r : Replica) (discord_of : ℕ → ℤ) (c u : ℕ) (rows : Table)
    → may_stay r discord_of c u ≡ true
    → get u (sweep_channel r discord_of c rows) ≡ get u rows
unfolding sweep_channel
sweep_channel-kept r discord_of c u rows stays =
    get-sweep_rows r discord_of c u (list_by_channel rows c) rows ∙ rw stays (ground arith)
