-- ===== src/Bot.antt =====
-- Discord's events at the bot: crates/bot/src/handler.rs, with `sweep_guild` of crates/bot/src/revoke.rs.
--
-- A handler writes the replica and then sweeps rooms; what it leaves of the presence table is modelled.
-- serenity's types come already converted (crates/bot/src/replica_sync.rs), users and Discord's answers
-- are parameters, and a query or a removal at the media server that fails is not modelled. Commands
-- and the start of the announcer are left out. Channel ids stay below 2^63.
pub mod Revoking
pub mod Leaving
pub mod Mirror
mod Tests
use ldktela.Base.{
  ℕ, Bool, true, false, not, ◌&&◌, Option, none, some, List, [], ◌∷◌, ◌++◌, length, ltb, ◌==◌,
  if◌then◌else◌,
}
use ldktela.Base.Int.{ℤ}
use ldktela.Base.Set
use ldktela.Domain.Discord.{RoleRef, can_join_room}
use ldktela.Replica
use ldktela.Replica.{Replica, GuildData, ChannelData}
use ldktela.Presence.{Table, PresenceRow}
use ldktela.Admission.{sweep_channel}

-- `SELECT DISTINCT discord_channel_id`
unfoldable pub occupied_channels : Table → List ℕ
occupied_channels [] = []
occupied_channels (e ∷ rows) = Set.insert e.1.discord_channel_id (occupied_channels rows)

unfoldable pub is_in_guild : Replica → ℕ → ℕ → Bool
is_in_guild r guild channel = elim (Replica.channel_info r channel) [
  | none ↦ false
  | some info ↦ info.0 == guild
]

unfoldable pub sweep_channels : Replica → (ℕ → ℤ) → ℕ → List ℕ → Table → Table
sweep_channels r discord_of guild [] rows = rows
sweep_channels r discord_of guild (channel ∷ channels) rows =
    sweep_channels r discord_of guild channels
      (if is_in_guild r guild channel then sweep_channel r discord_of channel rows else rows)

unfoldable pub sweep_guild : Replica → (ℕ → ℤ) → ℕ → Table → Table
sweep_guild r discord_of guild rows =
    sweep_channels r discord_of guild (occupied_channels rows) rows

abbrev pub page_size : ℕ
page_size = 1000

abbrev pub Members : Type 0
Members = List (ℕ × List ℕ)

unfoldable pub upsert_page : Replica → ℕ → Members → Replica
upsert_page r guild [] = r
upsert_page r guild (m ∷ members) =
    upsert_page (Replica.upsert_member r guild m.0 m.1) guild members

-- The pages that the list of members comes in, none for one that cannot be had.
unfoldable pub backfill_members : Replica → ℕ → List (Option Members) → Replica
backfill_members r guild [] = r
backfill_members r guild (none ∷ pages) = r
backfill_members r guild (some page ∷ pages) =
    let merged : Replica = upsert_page r guild page in
    let rest : Replica = backfill_members merged guild pages in
    if ltb (length page) page_size then merged else rest

unfoldable pub mirror : Replica → GuildData → ℕ → List (Option Members) → Replica
mirror r guild expected pages =
    let replaced : Replica = Replica.replace_guild r guild in
    if ltb (length guild.members) expected
    then backfill_members replaced guild.id pages
    else replaced

pub record Member : Type 0 where
  pub guild_id : ℕ
  pub user : ℕ
  pub roles : List ℕ

-- The events of Discord that the bot acts on. `guild_create` carries whether the guild is served, its
-- size and the pages of its members; a channel carries whether it can host a room.
pub data Event : Type 0 where
  ready resume : Event
  shard_stage_update : Bool → Event
  guild_create : Bool → GuildData → ℕ → List (Option Members) → Event
  guild_delete : Bool → ℕ → Event
  guild_member_addition : ℕ → ℕ → List ℕ → Event
  guild_member_update : Option Member → Event
  guild_member_removal : ℕ → ℕ → Event
  guild_role_create : ℕ → RoleRef → Event
  guild_role_update : ℕ → RoleRef → Event
  guild_role_delete : ℕ → ℕ → Event
  channel_create : ℕ → Bool → ChannelData → Event
  channel_update : ℕ → Bool → ChannelData → Event
  channel_delete : ℕ → ℕ → Event
  voice_state_update : Option ℕ → ℕ → Option ℕ → Event

pub record State : Type 0 where
  pub replica : Replica
  pub presence : Table

module _ (discord_of : ℕ → ℤ) where
  unfoldable pub swept : Replica → ℕ → Table → State
  swept r guild rows = record { replica = r; presence = sweep_guild r discord_of guild rows }

  unfoldable pub rechecked : Replica → ℕ → Table → State
  rechecked r channel rows = record {
    replica = r;
    presence = sweep_channel r discord_of channel rows;
  }

  unfoldable pub refresh_channel : State → ℕ → Bool → ChannelData → State
  refresh_channel s guild is_room channel =
      if is_room
      then rechecked (Replica.upsert_channel s.replica guild channel) channel.id s.presence
      else s

  -- The state after an event at `now`.
  unfoldable pub handle : ℕ → State → Event → State
  handle now s ready = record s { replica = Replica.set_connected s.replica true now }
  handle now s resume = record s { replica = Replica.set_connected s.replica true now }
  handle now s (shard_stage_update connected) = record s {
    replica = Replica.set_connected s.replica connected now;
  }
  handle now s (guild_create served guild expected pages) =
      if served then swept (mirror s.replica guild expected pages) guild.id s.presence else s
  handle now s (guild_delete unavailable guild) =
      if unavailable then s else swept (Replica.remove_guild s.replica guild) guild s.presence
  handle now s (guild_member_addition guild user roles) = record s {
    replica = Replica.upsert_member s.replica guild user roles;
  }
  handle now s (guild_member_update none) = s
  handle now s (guild_member_update (some m)) =
      swept (Replica.upsert_member s.replica m.guild_id m.user m.roles) m.guild_id s.presence
  handle now s (guild_member_removal guild user) =
      swept (Replica.remove_member s.replica guild user) guild s.presence
  handle now s (guild_role_create guild role) = record s {
    replica = Replica.upsert_role s.replica guild role;
  }
  handle now s (guild_role_update guild role) =
      swept (Replica.upsert_role s.replica guild role) guild s.presence
  handle now s (guild_role_delete guild role) =
      swept (Replica.remove_role s.replica guild role) guild s.presence
  handle now s (channel_create guild is_room channel) = refresh_channel s guild is_room channel
  handle now s (channel_update guild is_room channel) = refresh_channel s guild is_room channel
  handle now s (channel_delete guild channel) =
      rechecked (Replica.remove_channel s.replica guild channel) channel s.presence
  handle now s (voice_state_update none user channel) = s
  handle now s (voice_state_update (some guild) user channel) = record s {
    replica = Replica.set_voice s.replica guild user channel;
  }
