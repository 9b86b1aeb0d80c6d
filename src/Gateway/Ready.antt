-- ===== src/Gateway/Ready.antt =====
-- The room that READY names: `current_room` and `voice_room` of crates/api/src/gateway/ready.rs.
--
-- A room is its channel, its server and its name, from which the route of rooms builds the rest. The
-- lookup of the user's presence does not fail, and channel ids stay below 2^63.
mod Entered
mod Tests
use Prim.Native.String.{String}
use ldktela.Base.{ℕ, Bool, true, false, Option, none, some, if◌then◌else◌}
use ldktela.Domain.Discord.{can_join_room}
use ldktela.Replica
use ldktela.Replica.{Replica}
use ldktela.Presence.{Table, channel_of}

-- `is_some_and(|p| p.can_join_room())`
unfoldable pub may_join : Replica → ℕ → ℕ → Bool
may_join r user channel = elim (Replica.permissions r user channel) [
  | none ↦ false
  | some p ↦ can_join_room p
]

unfoldable pub joinable : Replica → ℕ → Option ℕ → Option ℕ
joinable r user none = none
joinable r user (some channel) = if may_join r user channel then some channel else none

unfoldable pub voice_room : Replica → ℕ → Option ℕ
voice_room r user = joinable r user (Replica.voice_channel_of r user)

unfoldable pub in_voice : Replica → Option ℕ → Option ℕ
in_voice r none = none
in_voice r (some user) = voice_room r user

unfoldable pub or_present : Table → ℕ → Option ℕ → Option ℕ
or_present rows user none = channel_of rows user
or_present rows user (some channel) = some channel

abbrev pub Room : Type 0
Room = ℕ × (ℕ × String)

unfoldable pub room_at : Replica → Option ℕ → Option Room
room_at r none = none
room_at r (some channel) = elim (Replica.channel_info r channel) [
  | none ↦ none
  | some info ↦ some (channel, info)
]

unfoldable pub current_room : Replica → Table → ℕ → Option ℕ → Option Room
current_room r rows user discord = room_at r (or_present rows user (in_voice r discord))
