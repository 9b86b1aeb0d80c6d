-- ===== src/Replica/Tests.antt =====
-- The replica at concrete inputs.
use ldktela.Base.{◌+◌, ◌≡◌, true, none, List, [], ◌∷◌}
use ldktela.Base.Map.{get, insert, retain, keys}
use ldktela.Domain.Discord.{view_channel, connect}
use ldktela.Replica.{
  GuildData, new, permissions, remove_guild, replace_guild, set_connected, index_channels,
  drop_guild,
}
use ldktela.Replica.Reach.{Call, guild_replaced, connection_set, step, run, run-new-Inv}
use ldktela.Replica.Authority.{permissions-remove_guild, permissions-replace_guild}

-- A guild with one voice channel, whose @everyone may view and connect.
abbrev games : GuildData
games = record {
  id = 100;
  owner_id = 1;
  roles = record { id = 100; permissions = view_channel + connect } ∷ [];
  members = (1, []) ∷ (2, []) ∷ [];
  channels = (900, record { id = 900; name = "jogos"; overwrites = [] }) ∷ [];
  voice = [];
}

-- The same guild after its channel was deleted.
abbrev emptied : GuildData
emptied = record games { channels = [] }

abbrev mirrored : List Call
mirrored = connection_set true 0 ∷ guild_replaced games ∷ []

permissions-remove_guild_example :
    permissions (remove_guild (run (new 60) mirrored) 100) 2 900 ≡ none
unfolding run step new replace_guild set_connected index_channels drop_guild get insert retain keys
permissions-remove_guild_example =
    permissions-remove_guild (run (new 60) mirrored) 100 2 900 (run-new-Inv 60 mirrored)

permissions-replace_guild_example :
    permissions (replace_guild (run (new 60) mirrored) emptied) 2 900 ≡ none
unfolding run step new replace_guild set_connected index_channels drop_guild get insert retain keys
permissions-replace_guild_example =
    permissions-replace_guild (run (new 60) mirrored) emptied 2 900 (run-new-Inv 60 mirrored)
