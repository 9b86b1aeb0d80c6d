-- ===== src/Presence/Invariant.antt =====
-- What any sequence of webhook events leaves true of presence and of the share sessions
-- (crates/api/src/routes/rooms.rs, crates/db/src/repo/presence.rs, crates/db/src/repo/sessions.rs).
use ldktela.Base.{
  ℕ, ◌≤◌, refl, inl, inr, true, false, not, Option, List, [], ◌∷◌, length, keep_if, Option-cases,
  arith,
}
use ldktela.Base.Map.{get}
use ldktela.Protocol.{PublicationSource, UserSummary}
use ldktela.Presence.{
  started_of, join, leave, start_publication, stop_publication, clear_row, clear_publications,
  clear_channel, list_by_channel,
}
use ldktela.Presence.Webhook.{
  Server, observe_room, on_join, on_leave, on_share_start, on_share_stop, on_publisher_gone,
  on_room_finished, Event, participant_joined, participant_left, track_published, track_unpublished,
  room_finished, other, webhook,
}
use ldktela.Rooms.{Rooms}
use ldktela.Presence.Rows.{
  AllTold, insert-AllTold, remove-AllTold, retain-AllTold, modify-AllTold, start_row-Told,
  stop_row-Told, open_count, open_count-close, open_count-observe, Single, open-Single,
  close-Single,
}

pub record Good (s : Server) : Type 0 where
  pub told : AllTold s.presence
  pub single : (c u : ℕ) → open_count c u s.sessions ≤ 1

observe-Good :
    (users : ℕ → Option UserSummary) (s : Server) (channel : ℕ)
    → Good s
    → Good (observe_room users s channel).0
unfolding observe_room
observe-Good users s channel g = record {
  told = g.told;
  single = λ c u.
      rw
        (open_count-observe c u channel
          (length (keep_if (λ e. not e.1.publishing) (list_by_channel s.presence channel)))
          s.sessions)
        (g.single c u);
}

on_join-Good :
    (users : ℕ → Option UserSummary) (s : Server) (channel user now : ℕ)
    → Good s
    → Good (on_join users s channel user now).0
unfolding on_join join
on_join-Good users s channel user now g = elim (Option-cases (users user)) [
  | inl e ↦ rw (e, on_join) g
  | inr (summary, e) ↦
      rw (e, on_join)
        (observe-Good users _ channel
          (record { told = insert-AllTold user _ s.presence refl g.told; single = g.single }))
]

on_leave-Good :
    (users : ℕ → Option UserSummary) (s : Server) (channel user now : ℕ)
    → Good s
    → Good (on_leave users s channel user now).0
unfolding on_leave leave Single
on_leave-Good users s channel user now g = observe-Good users _ channel (record {
  told = remove-AllTold user s.presence g.told;
  single = close-Single channel user now s.sessions g.single;
})

on_share_start-Good :
    (users : ℕ → Option UserSummary) (s : Server) (channel user : ℕ) (source : PublicationSource)
    (id now : ℕ)
    → Good s
    → Good (on_share_start users s channel user source id now).0
unfolding on_share_start start_publication started_of Single
on_share_start-Good users s channel user source id now g =
    elim (Option-cases (get user s.presence)) [
      | inl e ↦ rw (e, on_share_start, start_publication, started_of) g
      | inr (row, e) ↦
          rw (e, on_share_start, start_publication, started_of)
            (observe-Good users _ channel (record {
              told = modify-AllTold user _ s.presence (start_row-Told source now) g.told;
              single = open-Single id channel user now s.sessions g.single;
            }))
    ]

on_publisher_gone-Good :
    (users : ℕ → Option UserSummary) (s : Server) (channel user now : ℕ)
    → Good s
    → Good (on_publisher_gone users s channel user now).0
unfolding on_publisher_gone clear_publications clear_row Single
on_publisher_gone-Good users s channel user now g = elim (Option-cases (get user s.presence)) [
  | inl e ↦ rw (e, on_publisher_gone, clear_publications) g
  | inr (row, e) ↦
      rw (e, on_publisher_gone, clear_publications)
        (observe-Good users _ channel (record {
          told = modify-AllTold user _ s.presence (λ r t. refl) g.told;
          single = close-Single channel user now s.sessions g.single;
        }))
]

on_share_stop-Good :
    (users : ℕ → Option UserSummary) (s : Server) (channel user : ℕ) (source : PublicationSource)
    (now : ℕ)
    → Good s
    → Good (on_share_stop users s channel user source now).0
unfolding on_share_stop stop_publication Single
on_share_stop-Good users s channel user source now g = elim (Option-cases (get user s.presence)) [
  | inl e ↦ rw (e, on_share_stop, stop_publication) g
  | inr (row, e) ↦
      rw (e, on_share_stop, stop_publication)
        (observe-Good users _ channel (record {
          told = modify-AllTold user _ s.presence (stop_row-Told source) g.told;
          single =
              λ c u. ground (arith, open_count-close c u channel user now s.sessions, g.single c u);
        }))
]

webhook-Good :
    (users : ℕ → Option UserSummary) (s : Server) (channel : ℕ) (e : Event) (id now : ℕ)
    → Good s
    → Good (webhook users s channel e id now).0
unfolding webhook on_room_finished clear_channel
webhook-Good users s channel (participant_joined true user) id now g = g
webhook-Good users s channel (participant_joined false user) id now g =
    on_join-Good users s channel user now g
webhook-Good users s channel (participant_left true user) id now g =
    on_publisher_gone-Good users s channel user now g
webhook-Good users s channel (participant_left false user) id now g =
    on_leave-Good users s channel user now g
webhook-Good users s channel (track_published user source) id now g =
    on_share_start-Good users s channel user source id now g
webhook-Good users s channel (track_unpublished user source) id now g =
    on_share_stop-Good users s channel user source now g
webhook-Good users s channel room_finished id now g = record {
  told = retain-AllTold _ s.presence g.told;
  single = g.single;
}
webhook-Good users s channel other id now g = g

-- Webhook calls in order: the channel, the event, the id drawn for a session, the instant.
pub record Delivery : Type 0 where
  pub channel : ℕ
  pub event : Event
  pub id : ℕ
  pub now : ℕ

unfoldable pub run : (ℕ → Option UserSummary) → Server → List Delivery → Server
run users s [] = s
run users s (d ∷ ds) = run users (webhook users s d.channel d.event d.id d.now).0 ds

run-Good :
    (users : ℕ → Option UserSummary) (s : Server) (ds : List Delivery)
    → Good s
    → Good (run users s ds)
unfolding run
run-Good users s [] g = g
run-Good users s (d ∷ ds) g =
    run-Good users (webhook users s d.channel d.event d.id d.now).0 ds
      (webhook-Good users s d.channel d.event d.id d.now g)

-- With empty tables, as after a start of the server on a new database.
abbrev pub started : Rooms → Server
started rooms = record { presence = []; sessions = []; rooms = rooms }

-- After any sequence of webhook events, in any order and for any rooms and users, every presence row
-- says that its user publishes exactly if the screen or the camera is on the air, and no publisher has
-- two open share sessions in one channel.
pub run-started-Good :
    (users : ℕ → Option UserSummary) (rooms : Rooms) (ds : List Delivery)
    → Good (run users (started rooms) ds)
unfolding open_count
run-started-Good users rooms ds =
    run-Good users (started rooms) ds (record { told = tt; single = λ c u. omega arith })
