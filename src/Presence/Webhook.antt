-- ===== src/Presence/Webhook.antt =====
-- The webhook handlers of crates/api/src/routes/rooms.rs.
--
-- A handler returns the new server state and what it sends, in order. Users are a parameter: the
-- foreign key keeps unknown ones out of the tables, so `on_join` of one is the query's error. That
-- the database is lost is not modelled; the signature check and the parsing of the names and
-- identities of LiveKit (crates/api/src/livekit.rs) come before.
use ldktela.Base.{
  ℕ, Bool, true, false, not, Option, none, some, List, [], ◌∷◌, ◌++◌, map, length, ◌==◌, any,
  keep_if, if◌then◌else◌,
}
use ldktela.Protocol.{
  PublicationSource, UserSummary, DispatchEvent, room_participant_add, room_participant_remove,
  share_start, share_stop,
}
use ldktela.Presence.{
  Table, ShareSessionRow, join, leave, start_publication, stop_publication, clear_publications,
  sources, list_by_channel, clear_channel, open_session, close_session, observe_viewers,
}
use ldktela.Rooms.{Rooms, release_publisher, release_publication, forget_room}

pub record Server : Type 0 where
  pub presence : Table
  pub sessions : List ShareSessionRow
  pub rooms : Rooms

pub record RoomBroadcast : Type 0 where
  pub discord_channel_id : ℕ
  pub publishers : List ℕ
  pub viewers : ℕ

-- What a handler sends: a dispatch to the sessions of some users, or a snapshot to the bot.
pub data Effect : Type 0 where
  publishes : List ℕ → DispatchEvent → Effect
  announces : RoomBroadcast → Effect

unfoldable pub room_members : Table → ℕ → List ℕ
room_members rows channel = map (λ e. e.0) (list_by_channel rows channel)

unfoldable pub discord_ids : (ℕ → Option UserSummary) → Table → List ℕ
discord_ids users [] = []
discord_ids users (e ∷ rows) =
    let rest : List ℕ = discord_ids users rows in
    elim (users e.0) [ none ↦ rest | some u ↦ u.discord_user_id ∷ rest ]

unfoldable pub observe_room : (ℕ → Option UserSummary) → Server → ℕ → Server × List Effect
observe_room users s channel =
    let participants : Table = list_by_channel s.presence channel in
    let viewers : ℕ = length (keep_if (λ e. not e.1.publishing) participants) in
    (
      record s { sessions = observe_viewers s.sessions channel viewers },
      announces (record {
        discord_channel_id = channel;
        publishers = discord_ids users (keep_if (λ e. e.1.publishing) participants);
        viewers = viewers;
      })
          ∷ [],
    )

unfoldable pub publish_to_room : Server → ℕ → DispatchEvent → Effect
publish_to_room s channel event = publishes (room_members s.presence channel) event

unfoldable pub on_join : (ℕ → Option UserSummary) → Server → ℕ → ℕ → ℕ → Server × List Effect
on_join users s channel user now = elim (users user) [
  | none ↦ (s, [])
  | some summary ↦
      let seen : Server × List Effect =
        observe_room users (record s { presence = join s.presence user channel now }) channel in
      (
        seen.0,
        seen.1
            ++ publish_to_room seen.0 channel (
                room_participant_add (record {
                  discord_channel_id = channel;
                  participant = record { user = summary; publications = [] };
                }))
              ∷ [],
      )
]

unfoldable pub leave_recipients : Server → ℕ → ℕ → List ℕ
leave_recipients s channel user =
    let members : List ℕ = room_members s.presence channel in
    if any (λ m. m == user) members then members else members ++ user ∷ []

unfoldable pub on_leave : (ℕ → Option UserSummary) → Server → ℕ → ℕ → ℕ → Server × List Effect
on_leave users s channel user now =
    let left : Server = record s {
      presence = (leave s.presence user).0;
      sessions = close_session s.sessions channel user now;
      rooms = release_publisher s.rooms channel user;
    } in
    let seen : Server × List Effect = observe_room users left channel in
    (
      seen.0,
      seen.1
          ++ publishes (leave_recipients s channel user)
              (room_participant_remove (record { discord_channel_id = channel; user_id = user }))
            ∷ [],
    )

-- `id` is the new session's.
unfoldable pub on_share_start :
    (ℕ → Option UserSummary) → Server → ℕ → ℕ → PublicationSource → ℕ → ℕ → Server × List Effect
on_share_start users s channel user source id now =
    let out = start_publication s.presence user source now in
    elim out.1 [
      | none ↦ (s, [])
      | some started ↦
          let live : Server = record s {
            presence = out.0;
            sessions = open_session s.sessions id channel user now;
          } in
          let seen : Server × List Effect = observe_room users live channel in
          (
            seen.0,
            seen.1
                ++ publish_to_room seen.0 channel (
                    share_start (record {
                      discord_channel_id = channel;
                      user_id = user;
                      source = source;
                      started_at = started.since;
                    }))
                  ∷ [],
          )
    ]

unfoldable pub stop_of : ℕ → ℕ → PublicationSource → DispatchEvent
stop_of channel user source =
    share_stop (record { discord_channel_id = channel; user_id = user; source = source })

unfoldable pub on_publisher_gone :
    (ℕ → Option UserSummary) → Server → ℕ → ℕ → ℕ → Server × List Effect
on_publisher_gone users s channel user now =
    let out = clear_publications s.presence user in
    elim out.1 [
      | none ↦ (s, [])
      | some cleared ↦
          let gone : Server = record s {
            presence = out.0;
            sessions = close_session s.sessions channel user now;
            rooms = release_publisher s.rooms channel user;
          } in
          let seen : Server × List Effect = observe_room users gone channel in
          (
            seen.0,
            seen.1
                ++ map (λ source. publish_to_room seen.0 channel (stop_of channel user source))
                    (sources cleared),
          )
    ]

unfoldable pub on_share_stop :
    (ℕ → Option UserSummary) → Server → ℕ → ℕ → PublicationSource → ℕ → Server × List Effect
on_share_stop users s channel user source now =
    let out = stop_publication s.presence user source in
    elim out.1 [
      | none ↦ (s, [])
      | some stopped ↦
          let rest : Server = record s {
            presence = out.0;
            sessions =
                if stopped.still_publishing
                then s.sessions
                else close_session s.sessions channel user now;
            rooms = release_publication s.rooms channel user source;
          } in
          let seen : Server × List Effect = observe_room users rest channel in
          (seen.0, seen.1 ++ publish_to_room seen.0 channel (stop_of channel user source) ∷ [])
    ]

unfoldable pub on_room_finished : Server → ℕ → Server × List Effect
on_room_finished s channel = (
  record s { presence = clear_channel s.presence channel; rooms = forget_room s.rooms channel },
  announces (record { discord_channel_id = channel; publishers = []; viewers = 0 }) ∷ [],
)

-- The events that `webhook` tells apart, once the channel, the user and the source are read: whether
-- the connection publishes comes first, as in the guards of the source. Events without a user or a
-- source, and the others, change nothing.
pub data Event : Type 0 where
  participant_joined participant_left : Bool → ℕ → Event
  track_published track_unpublished : ℕ → PublicationSource → Event
  room_finished other : Event

unfoldable pub webhook :
    (ℕ → Option UserSummary) → Server → ℕ → Event → ℕ → ℕ → Server × List Effect
webhook users s channel (participant_joined true user) id now = (s, [])
webhook users s channel (participant_joined false user) id now = on_join users s channel user now
webhook users s channel (participant_left true user) id now =
    on_publisher_gone users s channel user now
webhook users s channel (participant_left false user) id now = on_leave users s channel user now
webhook users s channel (track_published user source) id now =
    on_share_start users s channel user source id now
webhook users s channel (track_unpublished user source) id now =
    on_share_stop users s channel user source now
webhook users s channel room_finished id now = on_room_finished s channel
webhook users s channel other id now = (s, [])
