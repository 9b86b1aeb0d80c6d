-- ===== src/Presence/Leaving.antt =====
-- Republishing, leaving and leaving late (crates/api/src/routes/rooms.rs,
-- crates/db/src/repo/presence.rs).
use ldktela.Base.{
  ℕ, ◌≡◌, refl, ◌∙◌, false, Option, none, some, [], ◌∷◌, arith, inl, inr, Option-cases,
}
use ldktela.Base.Map.{get, modify, get-insert, get-remove, get-modify}
use ldktela.Protocol.{PublicationSource, screen, camera, UserSummary}
use ldktela.Presence.{
  started_of, Table, PresenceRow, since_of, coalesce, join, leave, start_row, start_publication,
  channel_of,
}
use ldktela.Presence.Webhook.{
  Server, observe_room, on_join, on_leave, participant_joined, participant_left, webhook,
}

pair_eq {ℓ κ} :
    {A : Type ℓ} {B : Type κ} {a a' : A} {b b' : B}
    → a ≡ a'
    → b ≡ b'
    → ◌≡◌ {A = A × B} (a, b) (a', b')
pair_eq p q = rw (p, q) refl

start_row-again :
    (source : PublicationSource) (first again : ℕ) (row : PresenceRow)
    → start_row source again (start_row source first row) ≡ start_row source first row
unfolding start_row coalesce
start_row-again screen first again row = refl
start_row-again camera first again row = refl

started-again :
    (source : PublicationSource) (first again : ℕ) (row : PresenceRow)
    → started_of source again (some (start_row source first row))
      ≡ started_of source first (some row)
unfolding start_row coalesce since_of started_of
started-again screen first again row = refl
started-again camera first again row = refl

get-modified_none :
    (rows : Table) (user : ℕ) (f : PresenceRow → PresenceRow)
    → get user rows ≡ none
    → get user (modify user f rows) ≡ none
get-modified_none rows user f e = get-modify user user f rows ∙ rw e refl

get-modified :
    (rows : Table) (user : ℕ) (f : PresenceRow → PresenceRow) (row : PresenceRow)
    → get user rows ≡ some row
    → get user (modify user f rows) ≡ some (f row)
get-modified rows user f row e = get-modify user user f rows ∙ rw e (ground arith)

answered-again :
    (rows : Table) (user : ℕ) (source : PublicationSource) (first again : ℕ)
    → started_of source again (get user (modify user (start_row source first) rows))
      ≡ started_of source first (get user rows)
unfolding started_of
answered-again rows user source first again = elim (Option-cases (get user rows)) [
  | inl e ↦ rw (get-modified_none rows user (start_row source first) e, e) refl
  | inr (row, e) ↦
      rw (get-modified rows user (start_row source first) row e, e)
        (started-again source first again row)
]

modify-again :
    (user : ℕ) (f g : PresenceRow → PresenceRow) (rows : Table)
    → ((row : PresenceRow) → g (f row) ≡ f row)
    → modify user g (modify user f rows) ≡ modify user f rows
unfolding modify
modify-again user f g [] h = refl
modify-again user f g (e ∷ rows) h = ground (arith, h e.1, modify-again user f g rows h)

-- A publication that is announced again, at any later instant, changes nothing: the table is the one
-- that the first announcement left, and what is answered (the channel, and the instant it went live)
-- is what was answered first, for all users, in the room or not.
pub start_publication-again :
    (rows : Table) (user : ℕ) (source : PublicationSource) (first again : ℕ)
    → start_publication (start_publication rows user source first).0 user source again
      ≡ start_publication rows user source first
unfolding start_publication
start_publication-again rows user source first again =
    pair_eq
      (modify-again user (start_row source first) (start_row source again) rows
        (start_row-again source first again))
      (answered-again rows user source first again)

-- After `on_leave` the user is in no room, whatever room the event was about.
presence-on_leave :
    (users : ℕ → Option UserSummary) (s : Server) (channel user now : ℕ)
    → channel_of (on_leave users s channel user now).0.presence user ≡ none
unfolding on_leave observe_room leave channel_of
presence-on_leave users s channel user now = ground (arith, get-remove user user s.presence)

joined_row : ℕ → ℕ → PresenceRow
joined_row channel now = record {
  discord_channel_id = channel;
  publishing = false;
  joined_at = now;
  screen_since = none;
  camera_since = none;
}

joined-here :
    (rows : Table) (user channel now : ℕ)
    → get user (join rows user channel now) ≡ some (joined_row channel now)
unfolding join joined_row
joined-here rows user channel now =
    get-insert user user (joined_row channel now) rows ∙ ground arith

presence-on_join :
    (users : ℕ → Option UserSummary) (s : Server) (channel user now : ℕ) (summary : UserSummary)
    → users user ≡ some summary
    → channel_of (on_join users s channel user now).0.presence user ≡ some channel
unfolding on_join observe_room channel_of joined_row
presence-on_join users s channel user now summary e =
    rw (e, on_join) (rw (joined-here s.presence user channel now, channel_of) refl)

-- A known user who joins room a and then room b is in b; the departure from a, delivered late, takes the
-- user out of b.
pub late_leave :
    (users : ℕ → Option UserSummary) (s : Server) (a b user id now : ℕ) (summary : UserSummary)
    → users user ≡ some summary
    → let joined : Server =
        (webhook users
          (webhook users s a (participant_joined false user) id now).0
          b
          (participant_joined false user)
          id
          now).0 in
      (channel_of joined.presence user ≡ some b)
      × (channel_of (webhook users joined a (participant_left false user) id now).0.presence user
          ≡ none)
unfolding webhook
late_leave users s a b user id now summary e =
    (presence-on_join users _ b user now summary e, presence-on_leave users _ a user now)
