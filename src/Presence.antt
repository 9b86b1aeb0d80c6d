-- ===== src/Presence.antt =====
-- crates/db/src/repo/presence.rs and crates/db/src/repo/sessions.rs: who is in which room, what they
-- publish, and the history of shares.
--
-- `room_presence` is a dictionary keyed by the user, its primary key. A query is atomic; `NOW()` is
-- an argument. The profile that `list_by_channel` joins is looked up by the callers instead, and rows
-- that joined at one instant, whose order the query leaves open, come in the order of the table.
pub mod Webhook
pub mod Rows
pub mod Invariant
pub mod Leaving
mod Tests
use Prim.Native.Nat.{max}
use ldktela.Base.{
  ℕ, ◌+◌, Bool, true, false, not, ◌&&◌, ◌||◌, Option, none, some, List, [], ◌∷◌, ◌++◌, length, leb,
  ◌==◌, any, keep_if, if◌then◌else◌,
}
use ldktela.Base.Map.{get, insert, remove, retain, modify}
use ldktela.Protocol.{PublicationSource, screen, camera, Publication, RoomParticipant, UserSummary}

pub record PresenceRow : Type 0 where
  pub discord_channel_id : ℕ
  pub publishing : Bool
  pub joined_at : ℕ
  pub screen_since : Option ℕ
  pub camera_since : Option ℕ

abbrev pub Table : Type 0
Table = List (ℕ × PresenceRow)

abbrev pub is_some {ℓ} : {A : Type ℓ} → Option A → Bool
is_some none = false
is_some (some a) = true

unfoldable pub since_of : PresenceRow → PublicationSource → Option ℕ
since_of row screen = row.screen_since
since_of row camera = row.camera_since

unfoldable pub live_since : PublicationSource → Option ℕ → List Publication
live_since source none = []
live_since source (some since) = record { source = source; since = since } ∷ []

unfoldable pub to_wire : UserSummary → PresenceRow → RoomParticipant
to_wire user row = record {
  user = user;
  publications = live_since screen row.screen_since ++ live_since camera row.camera_since;
}

unfoldable pub join : Table → ℕ → ℕ → ℕ → Table
join rows user channel now =
    insert user
      (record {
        discord_channel_id = channel;
        publishing = false;
        joined_at = now;
        screen_since = none;
        camera_since = none;
      })
      rows

unfoldable pub leave : Table → ℕ → Table × Option ℕ
leave rows user = (
  remove user rows,
  elim (get user rows) [ none ↦ none | some row ↦ some row.discord_channel_id ],
)

-- `COALESCE(since, NOW())`
unfoldable pub coalesce : Option ℕ → ℕ → ℕ
coalesce none now = now
coalesce (some since) now = since

pub record StartedPublication : Type 0 where
  pub discord_channel_id : ℕ
  pub since : ℕ

unfoldable pub start_row : PublicationSource → ℕ → PresenceRow → PresenceRow
start_row screen now row = record row {
  screen_since = some (coalesce row.screen_since now);
  publishing = true;
}
start_row camera now row = record row {
  camera_since = some (coalesce row.camera_since now);
  publishing = true;
}

unfoldable pub started_of : PublicationSource → ℕ → Option PresenceRow → Option StartedPublication
started_of source now none = none
started_of source now (some row) = some (record {
  discord_channel_id = row.discord_channel_id;
  since = coalesce (since_of row source) now;
})

unfoldable pub start_publication :
    Table → ℕ → PublicationSource → ℕ → Table × Option StartedPublication
start_publication rows user source now =
    (modify user (start_row source now) rows, started_of source now (get user rows))

pub record StoppedPublication : Type 0 where
  pub discord_channel_id : ℕ
  pub still_publishing : Bool

unfoldable pub stop_row : PublicationSource → PresenceRow → PresenceRow
stop_row screen row = record row { screen_since = none; publishing = is_some row.camera_since }
stop_row camera row = record row { camera_since = none; publishing = is_some row.screen_since }

unfoldable pub stop_publication : Table → ℕ → PublicationSource → Table × Option StoppedPublication
stop_publication rows user source = (
  modify user (stop_row source) rows,
  elim (get user rows) [
    | none ↦ none
    | some row ↦ some (record {
      discord_channel_id = row.discord_channel_id;
      still_publishing = (stop_row source row).publishing;
    })
  ],
)

pub record ClearedPublications : Type 0 where
  pub discord_channel_id : ℕ
  pub had_screen : Bool
  pub had_camera : Bool

unfoldable pub clear_row : PresenceRow → PresenceRow
clear_row row = record row { screen_since = none; camera_since = none; publishing = false }

unfoldable pub clear_publications : Table → ℕ → Table × Option ClearedPublications
clear_publications rows user = (
  modify user clear_row rows,
  elim (get user rows) [
    | none ↦ none
    | some row ↦ some (record {
      discord_channel_id = row.discord_channel_id;
      had_screen = is_some row.screen_since;
      had_camera = is_some row.camera_since;
    })
  ],
)

unfoldable pub sources : ClearedPublications → List PublicationSource
sources c = (if c.had_screen then screen ∷ [] else []) ++ (if c.had_camera then camera ∷ [] else [])

-- `ORDER BY joined_at`
unfoldable pub by_arrival : ℕ × PresenceRow → Table → Table
by_arrival e [] = e ∷ []
by_arrival e (x ∷ xs) = if leb e.1.joined_at x.1.joined_at then e ∷ x ∷ xs else x ∷ by_arrival e xs

unfoldable pub list_by_channel : Table → ℕ → Table
list_by_channel [] channel = []
list_by_channel (e ∷ rows) channel =
    let rest : Table = list_by_channel rows channel in
    if e.1.discord_channel_id == channel then by_arrival e rest else rest

unfoldable pub channel_of : Table → ℕ → Option ℕ
channel_of rows user = elim (get user rows) [ none ↦ none | some row ↦ some row.discord_channel_id ]

unfoldable pub publisher_count : Table → ℕ → PublicationSource → ℕ
publisher_count rows channel source =
    length (keep_if (λ e. e.1.discord_channel_id == channel && is_some (since_of e.1 source)) rows)

unfoldable pub clear_channel : Table → ℕ → Table
clear_channel rows channel = retain (λ _ row. not (row.discord_channel_id == channel)) rows

-- `share_sessions`
pub record ShareSessionRow : Type 0 where
  pub id : ℕ
  pub discord_channel_id : ℕ
  pub publisher_id : ℕ
  pub started_at : ℕ
  pub ended_at : Option ℕ
  pub peak_viewers : ℕ
  pub egress_bytes : ℕ

unfoldable pub open_for : ℕ → ℕ → ShareSessionRow → Bool
open_for channel publisher s =
    s.discord_channel_id == channel && s.publisher_id == publisher && not (is_some s.ended_at)

-- The partial unique index makes a second open session of that publisher a no-op.
unfoldable pub open_session : List ShareSessionRow → ℕ → ℕ → ℕ → ℕ → List ShareSessionRow
open_session rows id channel publisher now =
    if any (open_for channel publisher) rows
    then rows
    else record {
      id = id;
      discord_channel_id = channel;
      publisher_id = publisher;
      started_at = now;
      ended_at = none;
      peak_viewers = 0;
      egress_bytes = 0;
    }
      ∷ rows

unfoldable pub close_session : List ShareSessionRow → ℕ → ℕ → ℕ → List ShareSessionRow
close_session [] channel publisher now = []
close_session (s ∷ rows) channel publisher now =
    let rest : List ShareSessionRow = close_session rows channel publisher now in
    if open_for channel publisher s then record s { ended_at = some now } ∷ rest else s ∷ rest

unfoldable pub observe_viewers : List ShareSessionRow → ℕ → ℕ → List ShareSessionRow
observe_viewers [] channel viewers = []
observe_viewers (s ∷ rows) channel viewers =
    let rest : List ShareSessionRow = observe_viewers rows channel viewers in
    if s.discord_channel_id == channel && not (is_some s.ended_at)
    then record s { peak_viewers = max s.peak_viewers viewers } ∷ rest
    else s ∷ rest

unfoldable pub close_all_open : List ShareSessionRow → ℕ → List ShareSessionRow
close_all_open [] now = []
close_all_open (s ∷ rows) now =
    let rest : List ShareSessionRow = close_all_open rows now in
    if is_some s.ended_at then s ∷ rest else record s { ended_at = some now } ∷ rest
