-- ===== src/Protocol.antt =====
-- crates/protocol/src: the wire types that the gateway, the rooms and the bot share.
-- Uuids, snowflakes and instants are numbers, of which the modelled code compares and orders only
-- what is not negative.
use Prim.Native.String.{String}
use ldktela.Base.{ℕ, Bool, Option, List}

-- user.rs
pub record UserSummary : Type 0 where
  pub id : ℕ
  pub discord_user_id : ℕ
  pub username : String
  pub display_name : Option String
  pub avatar_url : Option String

pub record CurrentUser : Type 0 where
  pub id : ℕ
  pub discord_user_id : ℕ
  pub username : String
  pub display_name : Option String
  pub avatar_url : Option String
  pub created_at : ℕ

-- room.rs
pub data PublicationSource : Type 0 where
  screen camera : PublicationSource

pub record Publication : Type 0 where
  pub source : PublicationSource
  pub since : ℕ

pub record RoomParticipant : Type 0 where
  pub user : UserSummary
  pub publications : List Publication

pub record RoomState : Type 0 where
  pub discord_channel_id : ℕ
  pub discord_guild_id : ℕ
  pub channel_name : String
  pub participants : List RoomParticipant

pub data RoomLeaveReason : Type 0 where
  left access_revoked replica_stale : RoomLeaveReason

pub record RoomLeave : Type 0 where
  pub discord_channel_id : ℕ
  pub reason : RoomLeaveReason

pub record RoomParticipantAdd : Type 0 where
  pub discord_channel_id : ℕ
  pub participant : RoomParticipant

pub record RoomParticipantRemove : Type 0 where
  pub discord_channel_id : ℕ
  pub user_id : ℕ

pub record ShareStart : Type 0 where
  pub discord_channel_id : ℕ
  pub user_id : ℕ
  pub source : PublicationSource
  pub started_at : ℕ

pub record ShareStop : Type 0 where
  pub discord_channel_id : ℕ
  pub user_id : ℕ
  pub source : PublicationSource

-- gateway.rs
pub record Ready : Type 0 where
  pub session_id : ℕ
  pub user : CurrentUser
  pub room : Option RoomState
  pub heartbeat_interval_ms : ℕ

pub data DispatchEvent : Type 0 where
  ready : Ready → DispatchEvent
  resumed : ℕ → DispatchEvent
  room_join : RoomState → DispatchEvent
  room_leave : RoomLeave → DispatchEvent
  room_participant_add : RoomParticipantAdd → DispatchEvent
  room_participant_remove : RoomParticipantRemove → DispatchEvent
  share_start : ShareStart → DispatchEvent
  share_stop : ShareStop → DispatchEvent

-- `op` is the constant DISPATCH in every dispatch frame.
pub record DispatchFrame : Type 0 where
  pub s : ℕ
  pub event : DispatchEvent

-- What a connection's queue receives: a dispatch, or a control frame by its opcode.
pub data Frame : Type 0 where
  dispatched : DispatchFrame → Frame
  heartbeat_ack reconnect : Frame
  invalid_session : Bool → Frame
