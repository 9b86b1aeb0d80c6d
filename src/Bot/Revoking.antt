-- ===== src/Bot/Revoking.antt =====
-- Who is still in the rooms of a server after an event that may have taken access away
-- (crates/bot/src/handler.rs and crates/bot/src/revoke.rs).
use ldktela.Base.{
  ℕ, true, Option, none, some, List, [], ◌∷◌, ◌==◌, if◌then◌else◌, ◌≡◌, refl, Bool-cases, inl, inr,
  arith,
}
use mathlib.Core.Path.{subst}
use mathlib.Core.Option.{some-injective}
use ldktela.Base.Int.{ℤ}
use ldktela.Base.Map.{get}
use ldktela.Base.Set
use ldktela.Base.Set.{contains-insert}
use ldktela.Replica.{Replica, upsert_member, remove_member, upsert_role, remove_role}
use ldktela.Presence.{Table, PresenceRow}
use ldktela.Admission.{may_stay, sweep_channel}
use ldktela.Admission.Sweep.{get-sweep_channel, sweep_channel-allowed}
use ldktela.Bot.{
  occupied_channels, is_in_guild, sweep_channels, sweep_guild, Event, guild_create,
  guild_member_update, guild_member_removal, guild_role_update, guild_role_delete, State, swept,
  handle, mirror,
}

contains-occupied_channels :
    (u : ℕ) (row : PresenceRow) (rows : Table)
    → get u rows ≡ some row
    → Set.contains row.discord_channel_id (occupied_channels rows) ≡ true
unfolding get occupied_channels
contains-occupied_channels u row [] h = cc
contains-occupied_channels u row (e ∷ rows) h = ground (
  arith,
  contains-insert e.1.discord_channel_id row.discord_channel_id (occupied_channels rows),
  contains-occupied_channels u row rows,
)

module _ (r : Replica) (discord_of : ℕ → ℤ) (guild : ℕ) where
  one_sweep : ℕ → Table → Table
  one_sweep c rows = if is_in_guild r guild c then sweep_channel r discord_of c rows else rows

  get-one_sweep :
      (c u : ℕ) (row : PresenceRow) (rows : Table)
      → get u (one_sweep c rows) ≡ some row
      → get u rows ≡ some row
  unfolding one_sweep
  get-one_sweep c u row rows h = elim (Bool-cases (is_in_guild r guild c)) [
    | inl e ↦ get-sweep_channel r discord_of c u row rows (rw e at h)
    | inr e ↦ rw e at h
  ]

  get-sweep_channels :
      (u : ℕ) (row : PresenceRow) (cs : List ℕ) (rows : Table)
      → get u (sweep_channels r discord_of guild cs rows) ≡ some row
      → get u rows ≡ some row
  unfolding sweep_channels one_sweep
  get-sweep_channels u row [] rows h = h
  get-sweep_channels u row (c ∷ cs) rows h =
      get-one_sweep c u row rows (get-sweep_channels u row cs (one_sweep c rows) h)

  sweep_channels-allowed :
      (u : ℕ) (row : PresenceRow) (cs : List ℕ) (rows : Table)
      → Set.contains row.discord_channel_id cs ≡ true
      → is_in_guild r guild row.discord_channel_id ≡ true
      → get u (sweep_channels r discord_of guild cs rows) ≡ some row
      → may_stay r discord_of row.discord_channel_id u ≡ true
  unfolding sweep_channels one_sweep Set.contains
  sweep_channels-allowed u row [] rows m ours h = cc
  sweep_channels-allowed u row (c ∷ cs) rows m ours h =
      elim (Bool-cases (c == row.discord_channel_id)) [
        | inl e ↦
            let here : c ≡ row.discord_channel_id = ground arith in
            let kept = get-sweep_channels u row cs (one_sweep c rows) h in
            let swept_here : get u (sweep_channel r discord_of row.discord_channel_id rows)
                ≡ some row =
              rw (here, ours) at kept in
            sweep_channel-allowed r discord_of row.discord_channel_id u row rows swept_here refl
        | inr e ↦
            sweep_channels-allowed u row cs (one_sweep c rows) (rw (Set.contains, e) at m) ours h
      ]

  pub sweep_guild-allowed :
      (u : ℕ) (row : PresenceRow) (rows : Table)
      → get u (sweep_guild r discord_of guild rows) ≡ some row
      → is_in_guild r guild row.discord_channel_id ≡ true
      → may_stay r discord_of row.discord_channel_id u ≡ true
  unfolding sweep_guild
  sweep_guild-allowed u row rows h ours =
      let before = get-sweep_channels u row (occupied_channels rows) rows h in
      sweep_channels-allowed u row (occupied_channels rows) rows
        (contains-occupied_channels u row rows before) ours h

swept_allowed :
    (r : Replica) (discord_of : ℕ → ℤ) (g guild u : ℕ) (row : PresenceRow) (rows : Table)
    → some g ≡ some guild
    → get u (sweep_guild r discord_of g rows) ≡ some row
    → is_in_guild r guild row.discord_channel_id ≡ true
    → may_stay r discord_of row.discord_channel_id u ≡ true
swept_allowed r discord_of g guild u row rows e h ours =
    sweep_guild-allowed r discord_of guild u row rows
      (subst (λ (x : ℕ). get u (sweep_guild r discord_of x rows) ≡ some row)
        (some-injective g guild e) h)
      ours

-- The server whose rooms an event has rechecked.
abbrev pub swept_by : Event → Option ℕ
swept_by (guild_create true guild expected pages) = some guild.id
swept_by (guild_member_update (some m)) = some m.guild_id
swept_by (guild_member_removal guild user) = some guild
swept_by (guild_role_update guild role) = some guild
swept_by (guild_role_delete guild role) = some guild
swept_by _ = none

-- After a server is mirrored, a member changes or leaves, or a role changes or goes, whoever is still
-- in a room of that server may join it by the new replica, or has a Discord id that is not a `u64`.
pub handle-allowed :
    (discord_of : ℕ → ℤ) (now : ℕ) (s : State) (e : Event) (guild u : ℕ) (row : PresenceRow)
    → swept_by e ≡ some guild
    → let after : State = handle discord_of now s e in
      get u after.presence ≡ some row
      → is_in_guild after.replica guild row.discord_channel_id ≡ true
      → may_stay after.replica discord_of row.discord_channel_id u ≡ true
unfolding handle swept
handle-allowed discord_of now s (guild_create true g expected pages) guild u row e h ours =
    swept_allowed (mirror s.replica g expected pages) discord_of g.id guild u row s.presence e h
      ours
handle-allowed discord_of now s (guild_member_update (some m)) guild u row e h ours =
    swept_allowed (upsert_member s.replica m.guild_id m.user m.roles) discord_of m.guild_id guild u
      row s.presence e h ours
handle-allowed discord_of now s (guild_member_removal g user) guild u row e h ours =
    swept_allowed (remove_member s.replica g user) discord_of g guild u row s.presence e h ours
handle-allowed discord_of now s (guild_role_update g role) guild u row e h ours =
    swept_allowed (upsert_role s.replica g role) discord_of g guild u row s.presence e h ours
handle-allowed discord_of now s (guild_role_delete g role) guild u row e h ours =
    swept_allowed (remove_role s.replica g role) discord_of g guild u row s.presence e h ours
handle-allowed discord_of now s _ guild u row e h ours = cc
