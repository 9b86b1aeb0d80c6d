-- ===== src/Bot/Tests.antt =====
-- Events of Discord at concrete inputs.
use ldktela.Base.{◌+◌, ◌≡◌, refl, true, false, none, some, List, [], ◌∷◌}
use ldktela.Base.Bits.{complement}
use ldktela.Base.Set
use ldktela.Base.Int.{pos, try_u64}
use ldktela.Base.Map.{get, insert, remove, keys, retain, modify}
use ldktela.Domain.Discord
use ldktela.Domain.Discord.{view_channel, connect}
use ldktela.Replica
use ldktela.Replica.{Replica, GuildData, permissions}
use ldktela.Replica.Reach.{Call, connection_set, guild_replaced, run, step, run-new-Inv}
use ldktela.Presence.{PresenceRow, list_by_channel, by_arrival}
use ldktela.Admission.{may_stay, sweep_channel, sweep_rows}
use ldktela.Bot.{
  State, Event, guild_create, guild_delete, guild_member_update, handle, swept, sweep_guild,
  sweep_channels, occupied_channels, is_in_guild,
}
use ldktela.Bot.Revoking.{handle-allowed}
use ldktela.Bot.Leaving.{handle-guild_delete}
use ldktela.Bot.Mirror.{after_events, started, after_events-Inv}
use ldktela.Replica.Index.{Inv}

abbrev games : GuildData
games = record {
  id = 100;
  owner_id = 1;
  roles = record { id = 100; permissions = view_channel + connect } ∷ [];
  members = (1, []) ∷ (2, []) ∷ [];
  channels = (900, record { id = 900; name = "jogos"; overwrites = [] }) ∷ [];
  voice = [];
}

abbrev mirrored : List Call
mirrored = connection_set true 0 ∷ guild_replaced games ∷ []

abbrev seat : PresenceRow
seat = record {
  discord_channel_id = 900;
  publishing = false;
  joined_at = 10;
  screen_since = none;
  camera_since = none;
}

-- User 2 is a member, user 7 is not.
abbrev in_room : State
in_room = record { replica = run (Replica.new 60) mirrored; presence = (2, seat) ∷ (7, seat) ∷ [] }

abbrev updated : Event
updated = guild_member_update (some (record { guild_id = 100; user = 2; roles = 5 ∷ [] }))

-- A server of 3 members, of whom the event has 2 and the list the third.
abbrev created : Event
created = guild_create true games 3 (some ((3, []) ∷ []) ∷ [])

handle-allowed_example : may_stay (handle pos 20 in_room updated).replica pos 900 2 ≡ true
unfolding handle swept sweep_guild sweep_channels occupied_channels is_in_guild run step Replica.new
    Replica.replace_guild Replica.set_connected Replica.index_channels Replica.drop_guild
    Replica.upsert_member Replica.with_member modify Replica.channel_info insert retain keys
    may_stay sweep_channel sweep_rows list_by_channel by_arrival try_u64 get permissions
    Replica.resolve_in complement remove Set.insert Set.contains Discord.accumulate Discord.add_role
    Discord.add_roles Discord.apply_channel Discord.apply_masks Discord.apply_overwrite
    Discord.base_permissions Discord.contains Discord.everyone_permissions Discord.is_everyone
    Discord.is_member Discord.is_member_role Discord.resolve Discord.can_view Discord.can_join_room
handle-allowed_example = handle-allowed pos 20 in_room updated 100 2 seat refl refl refl

handle-guild_delete_example :
    (permissions (handle pos 20 in_room (guild_delete false 100)).replica 2 900 ≡ none)
    × ((handle pos 20 in_room (guild_delete false 100)).presence ≡ in_room.presence)
unfolding run step Replica.new Replica.replace_guild Replica.set_connected Replica.index_channels
    Replica.drop_guild get insert retain keys
handle-guild_delete_example =
    handle-guild_delete pos 20 in_room 100 2 900 (run-new-Inv 60 mirrored) refl

after_events-Inv_example :
    Inv (after_events pos (started 60 []) ((0, created) ∷ (20, updated) ∷ [])).replica
after_events-Inv_example = after_events-Inv pos 60 [] ((0, created) ∷ (20, updated) ∷ [])
