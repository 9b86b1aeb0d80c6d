-- ===== src/Presence/Tests.antt =====
-- Webhook events at concrete inputs.
use ldktela.Base.{ℕ, ◌≡◌, refl, true, false, Option, none, some, List, [], ◌∷◌}
use ldktela.Protocol.{UserSummary, screen, camera}
use ldktela.Rooms.{new}
use ldktela.Presence.{channel_of}
use ldktela.Presence.Webhook.{
  Server, participant_joined, participant_left, track_published, track_unpublished, webhook,
}
use ldktela.Presence.Invariant.{Good, Delivery, run, started, run-started-Good}
use ldktela.Presence.Leaving.{late_leave}

abbrev ana : UserSummary
ana = record {
  id = 7;
  discord_user_id = 70;
  username = "ana";
  display_name = none;
  avatar_url = none;
}

abbrev everyone : ℕ → Option UserSummary
everyone user = some ana

abbrev evening : List Delivery
evening =
    record { channel = 900; event = participant_joined false 7; id = 1; now = 10 }
    ∷ record { channel = 900; event = track_published 7 screen; id = 2; now = 20 }
    ∷ record { channel = 900; event = track_published 7 camera; id = 3; now = 30 }
    ∷ record { channel = 900; event = track_unpublished 7 screen; id = 4; now = 40 }
    ∷ record { channel = 900; event = participant_left true 7; id = 5; now = 50 }
    ∷ []

run-started-Good_example : Good (run everyone (started (new 2 4)) evening)
run-started-Good_example = run-started-Good everyone (new 2 4) evening

late_leave_example :
    let joined : Server =
      (webhook everyone
        (webhook everyone (started (new 2 4)) 900 (participant_joined false 7) 1 10).0
        901
        (participant_joined false 7)
        1
        10).0 in
    (channel_of joined.presence 7 ≡ some 901)
    × (channel_of (webhook everyone joined 900 (participant_left false 7) 1 10).0.presence 7 ≡ none)
late_leave_example = late_leave everyone (started (new 2 4)) 900 901 7 1 10 ana refl
