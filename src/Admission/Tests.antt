-- ===== src/Admission/Tests.antt =====
-- Admission at concrete inputs.
use ldktela.Base.{ℕ, ◌+◌, ◌≡◌, ◌↔◌, refl, true, false, Option, none, some, [], ◌∷◌}
use ldktela.Base.Bits.{complement}
use ldktela.Base.Set
use ldktela.Base.Int.{pos, try_u64, i64_or_default}
use ldktela.Base.Map.{get, insert, remove}
use ldktela.Protocol.{screen}
use ldktela.Domain.Discord
use ldktela.Domain.Discord.{view_channel, connect, stream, can_publish}
use ldktela.Replica
use ldktela.Replica.{Replica, GuildData}
use ldktela.Presence.{Table, PresenceRow, list_by_channel, by_arrival}
use ldktela.Rooms
use ldktela.Admission.{
  UserRow, RoomAccess, ok, room_access, token, may_stay, sweep_channel, sweep_rows, publish_access,
  access_for, claimed, of_claim, key_of, require, ok_or, is_fresh,
}
use ldktela.Admission.Access.{Holds, room_access-granted, token-Holds}
use ldktela.Admission.Sweep.{sweep_channel-allowed, sweep_channel-kept}

abbrev games : GuildData
games = record {
  id = 100;
  owner_id = 1;
  roles = record { id = 100; permissions = view_channel + connect + stream } ∷ [];
  members = (1, []) ∷ (2, []) ∷ [];
  channels = (900, record { id = 900; name = "jogos"; overwrites = [] }) ∷ [];
  voice = [];
}

abbrev mirror : Replica
mirror = record {
  guilds = (100, games) ∷ [];
  channel_index = (900, 100) ∷ [];
  connected = true;
  disconnected_since = none;
  grace = 60;
}

abbrev ana : UserRow
ana = record { id = 7; discord_user_id = pos 2; username = "ana"; display_name = none }

abbrev everyone : ℕ → Option UserRow
everyone user = some ana

abbrev seat : PresenceRow
seat = record {
  discord_channel_id = 900;
  publishing = false;
  joined_at = 10;
  screen_since = none;
  camera_since = none;
}

room_access-granted_example :
    ((a : RoomAccess) × (room_access mirror everyone 0 7 (pos 900) ≡ ok a))
    ↔ ((row : UserRow) × ((everyone 7 ≡ some row) × ((p : ℕ) × Holds mirror 0 row (pos 900) p)))
room_access-granted_example = room_access-granted mirror everyone 0 7 (pos 900)

token-Holds_example :
    (row : UserRow) × ((everyone 7 ≡ some row)
      × ((p : ℕ) × (Holds mirror 0 row (pos 900) p × (can_publish p ≡ true))))
unfolding token access_for publish_access room_access require is_fresh Replica.staleness ok_or
    try_u64 Replica.permissions get Discord.can_view Replica.resolve_in Discord.resolve
    Discord.can_join_room Replica.channel_info can_publish claimed key_of of_claim complement
    i64_or_default insert remove Set.contains Set.insert Set.is_empty Set.remove Discord.accumulate
    Discord.add_role Discord.add_roles Discord.apply_channel Discord.apply_masks
    Discord.apply_overwrite Discord.base_permissions Discord.contains Discord.everyone_permissions
    Discord.is_everyone Discord.is_member Discord.is_member_role Rooms.ceiling
    Rooms.claim_publications Rooms.exceeds Rooms.holders Rooms.room_of Rooms.settle
    Rooms.slots_empty Rooms.store Rooms.wants Rooms.with_holders Rooms.new
token-Holds_example = token-Holds mirror (Rooms.new 2 4) everyone 0 7 (pos 900) screen [] refl

-- User 2 may stay, user 7, who is no member, is evicted.
abbrev both : Table
both = (2, seat) ∷ (7, seat) ∷ []

sweep_channel-allowed_example : may_stay mirror pos 900 2 ≡ true
unfolding may_stay sweep_channel sweep_rows list_by_channel by_arrival try_u64 get
    Replica.permissions Replica.resolve_in complement remove Discord.accumulate Discord.add_role
    Discord.add_roles Discord.apply_channel Discord.apply_masks Discord.apply_overwrite
    Discord.base_permissions Discord.contains Discord.everyone_permissions Discord.is_everyone
    Discord.is_member Discord.is_member_role Discord.resolve Discord.can_view Discord.can_join_room
sweep_channel-allowed_example = sweep_channel-allowed mirror pos 900 2 seat both refl refl

sweep_channel-kept_example : get 2 (sweep_channel mirror pos 900 both) ≡ get 2 both
unfolding may_stay sweep_channel sweep_rows list_by_channel by_arrival try_u64 get
    Replica.permissions Replica.resolve_in complement remove Discord.accumulate Discord.add_role
    Discord.add_roles Discord.apply_channel Discord.apply_masks Discord.apply_overwrite
    Discord.base_permissions Discord.contains Discord.everyone_permissions Discord.is_everyone
    Discord.is_member Discord.is_member_role Discord.resolve Discord.can_view Discord.can_join_room
sweep_channel-kept_example = sweep_channel-kept mirror pos 900 2 both refl

seven_evicted : get 7 (sweep_channel mirror pos 900 both) ≡ none
unfolding may_stay sweep_channel sweep_rows list_by_channel by_arrival try_u64 get
    Replica.permissions Replica.resolve_in complement remove Discord.accumulate Discord.add_role
    Discord.add_roles Discord.apply_channel Discord.apply_masks Discord.apply_overwrite
    Discord.base_permissions Discord.contains Discord.everyone_permissions Discord.is_everyone
    Discord.is_member Discord.is_member_role Discord.resolve Discord.can_view Discord.can_join_room
seven_evicted = refl
