-- ===== src/Gateway/Ready/Tests.antt =====
-- The room of READY at concrete inputs.
use ldktela.Base.{◌+◌, ◌≡◌, ◌⊎◌, refl, true, none, some, [], ◌∷◌}
use ldktela.Base.Bits.{complement}
use ldktela.Base.Map.{get, values}
use ldktela.Domain.Discord
use ldktela.Domain.Discord.{view_channel, connect}
use ldktela.Replica
use ldktela.Replica.{Replica, GuildData, channel_info}
use ldktela.Presence.{channel_of}
use ldktela.Gateway.Ready.{
  may_join, joinable, voice_room, in_voice, or_present, room_at, current_room,
}
use ldktela.Gateway.Ready.Entered.{InVoice, current_room-entered}

-- Ana is in the call of the channel and has no presence.
abbrev games : GuildData
games = record {
  id = 100;
  owner_id = 1;
  roles = record { id = 100; permissions = view_channel + connect } ∷ [];
  members = (1, []) ∷ (2, []) ∷ [];
  channels = (900, record { id = 900; name = "jogos"; overwrites = [] }) ∷ [];
  voice = (2, 900) ∷ [];
}

abbrev mirror : Replica
mirror = record {
  guilds = (100, games) ∷ [];
  channel_index = (900, 100) ∷ [];
  connected = true;
  disconnected_since = none;
  grace = 60;
}

current_room-entered_example :
    (channel_info mirror 900 ≡ some (100, "jogos"))
    × (InVoice mirror (some 2) 900 ⊎ (channel_of [] 7 ≡ some 900))
unfolding current_room may_join joinable voice_room in_voice or_present room_at get values
    Replica.voice_channel_of Replica.first_voice Replica.permissions Replica.resolve_in channel_info
    complement Discord.accumulate Discord.add_role Discord.add_roles Discord.apply_channel
    Discord.apply_masks Discord.apply_overwrite Discord.base_permissions Discord.contains
    Discord.everyone_permissions Discord.is_everyone Discord.is_member Discord.is_member_role
    Discord.resolve Discord.can_view Discord.can_join_room
current_room-entered_example = current_room-entered mirror [] 7 (some 2) (900, (100, "jogos")) refl
