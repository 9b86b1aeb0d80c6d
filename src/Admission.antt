-- ===== src/Admission.antt =====
-- Who gets into a room: crates/api/src/permissions.rs, the token route of
-- crates/api/src/routes/rooms.rs, and the revocation sweep of crates/bot/src/revoke.rs.
--
-- The lookup of a user is a parameter. Signing the LiveKit token comes after what is modelled of the
-- route, and the removal from LiveKit's own room and the reply to the client come beside the sweep.
pub mod Access
pub mod Sweep
mod Tests
use Prim.Native.String.{String}
use ldktela.Base.{ℕ, Bool, true, false, not, Option, none, some, List, [], ◌∷◌, if◌then◌else◌}
use ldktela.Base.Int.{ℤ, pos, negsuc, try_u64, i64_or_default}
use ldktela.Base.Map.{remove}
use ldktela.Protocol.{PublicationSource}
use ldktela.Domain.Discord.{can_view, can_join_room, can_publish}
use ldktela.Replica
use ldktela.Replica.{Replica, Staleness, fresh, stale}
use ldktela.Rooms
use ldktela.Rooms.{Rooms, Claim, granted, room_capacity}
use ldktela.Presence.{Table, list_by_channel}

pub record UserRow : Type 0 where
  pub id : ℕ
  pub discord_user_id : ℤ
  pub username : String
  pub display_name : Option String

pub record RoomAccess : Type 0 where
  pub user : UserRow
  pub permissions : ℕ
  pub discord_guild_id : ℤ
  pub channel_name : String

-- The errors of these guards; `invisible` is the 404 of a room that the caller does not see.
pub data AppError : Type 0 where
  replica_stale user_missing invisible forbidden internal at_capacity : AppError

pub data Outcome {ℓ} (A : Type ℓ) : Type ℓ where
  ok : A → Outcome A
  err : AppError → Outcome A

infixl 5 ◌>>=◌
-- The `?` of the source.
abbrev pub ◌>>=◌ {ℓ κ} : {A : Type ℓ} {B : Type κ} → Outcome A → (A → Outcome B) → Outcome B
ok a >>= f = f a
err e >>= f = err e

unfoldable pub ok_or {ℓ} : {A : Type ℓ} → AppError → Option A → Outcome A
ok_or e none = err e
ok_or e (some a) = ok a

-- An early return unless the test holds.
unfoldable pub require : AppError → Bool → Outcome Bool
require e true = ok true
require e false = err e

unfoldable pub is_fresh : Staleness → Bool
is_fresh fresh = true
is_fresh stale = false

unfoldable pub room_access : Replica → (ℕ → Option UserRow) → ℕ → ℕ → ℤ → Outcome RoomAccess
room_access r users now user discord_channel_id = do
  _ ← require replica_stale (is_fresh (Replica.staleness r now))
  row ← ok_or user_missing (users user)
  channel ← ok_or invisible (try_u64 discord_channel_id)
  discord_user ← ok_or internal (try_u64 row.discord_user_id)
  permissions ← ok_or invisible (Replica.permissions r discord_user channel)
  _ ← require invisible (can_view permissions)
  _ ← require forbidden (can_join_room permissions)
  info ← ok_or invisible (Replica.channel_info r channel)
  ok (record {
    user = row;
    permissions = permissions;
    discord_guild_id = i64_or_default info.0;
    channel_name = info.1;
  })

unfoldable pub publish_access : Replica → (ℕ → Option UserRow) → ℕ → ℕ → ℤ → Outcome RoomAccess
publish_access r users now user discord_channel_id = do
  access ← room_access r users now user discord_channel_id
  _ ← require forbidden (can_publish access.permissions)
  ok access

unfoldable pub access_for :
    Replica → (ℕ → Option UserRow) → ℕ → ℕ → ℤ → List PublicationSource → Outcome RoomAccess
access_for r users now user channel [] = room_access r users now user channel
access_for r users now user channel (source ∷ publish) = publish_access r users now user channel

unfoldable pub of_claim : Claim → AppError → Outcome Bool
of_claim granted e = ok true
of_claim room_capacity e = err e

unfoldable pub claimed : Rooms × Claim → Rooms × Outcome Bool
claimed (rooms, claim) = (rooms, of_claim claim at_capacity)

-- The ledger's key of a channel; a negative id never gets as far.
unfoldable pub key_of : ℤ → ℕ
key_of (pos n) = n
key_of (negsuc n) = 0

-- The route up to the signing of the token.
unfoldable pub token :
    Replica
    → Rooms
    → (ℕ → Option UserRow)
    → ℕ
    → ℕ
    → ℤ
    → List PublicationSource
    → Rooms × Outcome Bool
token r rooms users now user channel publish = elim (access_for r users now user channel publish) [
  | err e ↦ (rooms, err e)
  | ok access ↦ claimed (Rooms.claim_publications rooms (key_of channel) user publish)
]

-- Whether a participant stays: one whose Discord id is not a `u64` is passed over.
unfoldable pub may_stay : Replica → (ℕ → ℤ) → ℕ → ℕ → Bool
may_stay r discord_of channel user = elim (try_u64 (discord_of user)) [
  | none ↦ true
  | some discord_user ↦ elim (Replica.permissions r discord_user channel) [
    | none ↦ false
    | some p ↦ can_join_room p
  ]
]

-- The rows left by the loop over the participants.
unfoldable pub sweep_rows : Replica → (ℕ → ℤ) → ℕ → Table → Table → Table
sweep_rows r discord_of channel [] rows = rows
sweep_rows r discord_of channel (p ∷ participants) rows =
    sweep_rows r discord_of channel participants
      (if may_stay r discord_of channel p.0 then rows else remove p.0 rows)

unfoldable pub sweep_channel : Replica → (ℕ → ℤ) → ℕ → Table → Table
sweep_channel r discord_of channel rows =
    sweep_rows r discord_of channel (list_by_channel rows channel) rows
