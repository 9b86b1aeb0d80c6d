-- ===== src/Bot/Mirror.antt =====
-- What the events of crates/bot/src/handler.rs write to the replica: they leave its index sound.
use ldktela.Base.{
  ℕ, Bool, true, false, Option, none, some, List, [], ◌∷◌, length, ltb, Bool-cases, inl, inr,
}
use ldktela.Base.Int.{ℤ}
use ldktela.Replica.{Replica, GuildData, ChannelData, new, replace_guild, upsert_member}
use ldktela.Replica.Index.{Inv, new-Inv}
use ldktela.Replica.Reach.{
  step, step-Inv, guild_replaced, guild_removed, member_upserted, member_removed, role_upserted,
  role_removed, channel_upserted, channel_removed, connection_set, voice_set,
}
use ldktela.Presence.{Table}
use ldktela.Bot.{
  upsert_page, backfill_members, page_size, mirror, Members, Event, ready, resume,
  shard_stage_update, guild_create, guild_delete, guild_member_addition, guild_member_update,
  guild_member_removal, guild_role_create, guild_role_update, guild_role_delete, channel_create,
  channel_update, channel_delete, voice_state_update, State, swept, rechecked, refresh_channel,
  handle,
}

upsert_page-Inv :
    (r : Replica) (guild : ℕ) (members : Members) → Inv r → Inv (upsert_page r guild members)
unfolding upsert_page step
upsert_page-Inv r guild [] v = v
upsert_page-Inv r guild (m ∷ members) v =
    upsert_page-Inv (upsert_member r guild m.0 m.1) guild members
      (step-Inv r (member_upserted guild m.0 m.1) v)

backfill_members-Inv :
    (r : Replica) (guild : ℕ) (pages : List (Option Members))
    → Inv r
    → Inv (backfill_members r guild pages)
unfolding backfill_members
backfill_members-Inv r guild [] v = v
backfill_members-Inv r guild (none ∷ pages) v = v
backfill_members-Inv r guild (some page ∷ pages) v =
    let merged = upsert_page-Inv r guild page v in
    elim (Bool-cases (ltb (length page) page_size)) [
      | inl e ↦ rw (backfill_members, e) merged
      | inr e ↦
          rw (backfill_members, e)
            (backfill_members-Inv (upsert_page r guild page) guild pages merged)
    ]

mirror-Inv :
    (r : Replica) (guild : GuildData) (expected : ℕ) (pages : List (Option Members))
    → Inv r
    → Inv (mirror r guild expected pages)
unfolding mirror step
mirror-Inv r guild expected pages v =
    let replaced = step-Inv r (guild_replaced guild) v in
    elim (Bool-cases (ltb (length guild.members) expected)) [
      | inl e ↦
          rw (mirror, e) (backfill_members-Inv (replace_guild r guild) guild.id pages replaced)
      | inr e ↦ rw (mirror, e) replaced
    ]

module _ (discord_of : ℕ → ℤ) where
  refresh_channel-Inv :
      (s : State) (guild : ℕ) (is_room : Bool) (channel : ChannelData)
      → Inv s.replica
      → Inv (refresh_channel discord_of s guild is_room channel).replica
  unfolding refresh_channel rechecked step
  refresh_channel-Inv s guild true channel v = step-Inv s.replica (channel_upserted guild channel) v
  refresh_channel-Inv s guild false channel v = v

  handle-Inv :
      (now : ℕ) (s : State) (e : Event) → Inv s.replica → Inv (handle discord_of now s e).replica
  unfolding handle swept rechecked step
  handle-Inv now s ready v = step-Inv s.replica (connection_set true now) v
  handle-Inv now s resume v = step-Inv s.replica (connection_set true now) v
  handle-Inv now s (shard_stage_update up) v = step-Inv s.replica (connection_set up now) v
  handle-Inv now s (guild_create true guild expected pages) v =
      mirror-Inv s.replica guild expected pages v
  handle-Inv now s (guild_create false guild expected pages) v = v
  handle-Inv now s (guild_delete true guild) v = v
  handle-Inv now s (guild_delete false guild) v = step-Inv s.replica (guild_removed guild) v
  handle-Inv now s (guild_member_addition guild u roles) v =
      step-Inv s.replica (member_upserted guild u roles) v
  handle-Inv now s (guild_member_update none) v = v
  handle-Inv now s (guild_member_update (some m)) v =
      step-Inv s.replica (member_upserted m.guild_id m.user m.roles) v
  handle-Inv now s (guild_member_removal guild u) v = step-Inv s.replica (member_removed guild u) v
  handle-Inv now s (guild_role_create guild role) v =
      step-Inv s.replica (role_upserted guild role) v
  handle-Inv now s (guild_role_update guild role) v =
      step-Inv s.replica (role_upserted guild role) v
  handle-Inv now s (guild_role_delete guild role) v = step-Inv s.replica (role_removed guild role) v
  handle-Inv now s (channel_create guild is_room channel) v =
      refresh_channel-Inv s guild is_room channel v
  handle-Inv now s (channel_update guild is_room channel) v =
      refresh_channel-Inv s guild is_room channel v
  handle-Inv now s (channel_delete guild channel) v =
      step-Inv s.replica (channel_removed guild channel) v
  handle-Inv now s (voice_state_update none u channel) v = v
  handle-Inv now s (voice_state_update (some guild) u channel) v =
      step-Inv s.replica (voice_set guild u channel) v

  -- The state after events at their times.
  unfoldable pub after_events : State → List (ℕ × Event) → State
  after_events s [] = s
  after_events s (e ∷ events) = after_events (handle discord_of e.0 s e.1) events

  run-Inv :
      (s : State) (events : List (ℕ × Event)) → Inv s.replica → Inv (after_events s events).replica
  unfolding after_events
  run-Inv s [] v = v
  run-Inv s (e ∷ events) v = run-Inv (handle discord_of e.0 s e.1) events (handle-Inv e.0 s e.1 v)

unfoldable pub started : ℕ → Table → State
started grace rows = record { replica = new grace; presence = rows }

-- After any events of Discord at a bot with a new replica, the index names for a channel only a guild
-- that is mirrored, under its own id, and that has the channel.
pub after_events-Inv :
    (discord_of : ℕ → ℤ) (grace : ℕ) (rows : Table) (events : List (ℕ × Event))
    → Inv (after_events discord_of (started grace rows) events).replica
unfolding started
after_events-Inv discord_of grace rows events =
    run-Inv discord_of (started grace rows) events (new-Inv grace)
