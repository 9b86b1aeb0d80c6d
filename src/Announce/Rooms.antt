-- ===== src/Announce/Rooms.antt =====
-- From snapshots of rooms to tags: `update_tags`, `apply` and the loop `run` of
-- crates/bot/src/announce.rs.
--
-- A set of pairs is a list, each pair at most once. Sets and maps are run through in the order of the
-- list, which the library leaves open. `queries` and the clock may differ from call to call.
use ldktela.Base.{
  ℕ, Bool, ◌&&◌, not, none, some, List, [], ◌∷◌, ◌==◌, if◌then◌else◌, map, keep_if, any,
}
use ldktela.Base.Map
use ldktela.Base.Set
use ldktela.Base.Int.{i64_or_default, unsigned_abs}
use ldktela.Replica.{Replica, channel_info}
use ldktela.Presence.Webhook.{RoomBroadcast}
use ldktela.Announce.Tags.{Discord, Queries, World, apply_nickname, restore_nickname}

abbrev pub Tagged : Type 0
Tagged = List (ℕ × ℕ)

unfoldable pub is_pair : ℕ → ℕ → ℕ × ℕ → Bool
is_pair guild user p = p.0 == guild && p.1 == user

unfoldable pub has_tag : ℕ → ℕ → Tagged → Bool
has_tag guild user tagged = any (is_pair guild user) tagged

unfoldable pub drop_tag : ℕ → ℕ → Tagged → Tagged
drop_tag guild user tagged = keep_if (λ p. not (is_pair guild user p)) tagged

-- The publishers as a set.
unfoldable pub wanted_of : List ℕ → List ℕ
wanted_of [] = []
wanted_of (user ∷ publishers) = Set.insert user (wanted_of publishers)

unfoldable pub is_stale : ℕ → List ℕ → ℕ × ℕ → Bool
is_stale guild wanted p = p.0 == guild && not (Set.contains p.1 wanted)

unfoldable pub stale_of : ℕ → List ℕ → Tagged → List ℕ
stale_of guild wanted tagged = map (λ p. p.1) (keep_if (is_stale guild wanted) tagged)

module _ (d : Discord) where
  unfoldable pub tag_user : Queries → ℕ → ℕ → ℕ → World d × Tagged → World d × Tagged
  tag_user q at guild user s =
      if has_tag guild user s.1
      then s
      else (apply_nickname d q at s.0 guild user, (guild, user) ∷ s.1)

  unfoldable pub tag_wanted : Queries → ℕ → ℕ → List ℕ → World d × Tagged → World d × Tagged
  tag_wanted q at guild [] s = s
  tag_wanted q at guild (user ∷ wanted) s =
      tag_wanted q at guild wanted (tag_user q at guild user s)

  unfoldable pub untag_stale : Queries → ℕ → List ℕ → World d × Tagged → World d × Tagged
  untag_stale q guild [] s = s
  untag_stale q guild (user ∷ stale) s =
      untag_stale q guild stale (restore_nickname d q s.0 guild user, drop_tag guild user s.1)

  unfoldable pub update_tags : Queries → ℕ → ℕ → RoomBroadcast → World d × Tagged → World d × Tagged
  update_tags q at guild snapshot s =
      let wanted : List ℕ = wanted_of snapshot.publishers in
      let marked : World d × Tagged = tag_wanted q at guild wanted s in
      untag_stale q guild (stale_of guild wanted marked.1) marked

  unfoldable pub apply : Replica → Queries → ℕ → RoomBroadcast → World d × Tagged → World d × Tagged
  apply replica q at snapshot s = elim (channel_info replica snapshot.discord_channel_id) [
    | none ↦ s
    | some info ↦ update_tags q at (unsigned_abs (i64_or_default info.0)) snapshot s
  ]

  -- What the loop keeps: the newest snapshot of each room, and who is tagged.
  pub record Loop : Type 0 where
    pub pending : List (ℕ × RoomBroadcast)
    pub tagged : Tagged
    pub world : World d

  unfoldable pub received : RoomBroadcast → Loop → Loop
  received snapshot l = record l {
    pending = Map.insert snapshot.discord_channel_id snapshot l.pending;
  }

  unfoldable pub apply_all :
      Replica → Queries → ℕ → List (ℕ × RoomBroadcast) → World d × Tagged → World d × Tagged
  apply_all replica q at [] s = s
  apply_all replica q at (e ∷ pending) s = apply_all replica q at pending (apply replica q at e.1 s)

  unfoldable pub tick : Replica → Queries → ℕ → Loop → Loop
  tick replica q at l =
      let (world, tagged) = apply_all replica q at l.pending (l.world, l.tagged) in
      record { pending = []; tagged = tagged; world = world }
