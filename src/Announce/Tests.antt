-- ===== src/Announce/Tests.antt =====
-- Concrete runs of the nickname tag, and its theorems at concrete inputs.
use ldktela.Base.{
  ℕ, zero, suc, ◌≤◌, ◌≡◌, refl, true, false, Option, none, some, [], ◌∷◌, ◌++◌, ◌==◌, if◌then◌else◌,
  find?,
}
use mathlib.Core.Path.{subst}
use mathlib.Core.Option.{some-injective}
use ldktela.Base.Map.{get}
use ldktela.Base.Set
use ldktela.Presence.Webhook.{RoomBroadcast}
use ldktela.Announce.{
  Name, may_rename, prefix, legacy_prefix, nick_limit, is_tagged, starts_with, take_room,
  count_utf16, len_utf16, base_name, tagged_nickname, owner, above_bot,
}
use ldktela.Announce.Tags.{
  LiveTag, of_member, Member, CachedGuild, Discord, top, unwrap_or_default, Queries, World, verdict,
  edit_tagged, tag_member, apply_nickname, restore_nickname,
}
use ldktela.Announce.Rooms.{has_tag, update_tags}
use ldktela.Announce.Nickname.{Full, tagged_nickname_lem}
use ldktela.Announce.Restoring.{shown, restore_nickname-apply_nickname}
use ldktela.Announce.Records.{restore_nickname_refused}
use ldktela.Announce.Snapshots.{update_tags_lem}

owner_refused : may_rename 1 0 99 1 ≡ owner
unfolding may_rename
owner_refused = refl

same_role_refused : may_rename 2 5 5 1 ≡ above_bot
unfolding may_rename
same_role_refused = refl

-- "bia"
abbrev bia : Name
bia = 0x62 ∷ 0x69 ∷ 0x61 ∷ []

abbrev repeat : ℕ → ℕ → Name
repeat zero c = []
repeat (suc n) c = c ∷ repeat n c

-- 22 letters and an emoji: one unit is left for an emoji of two.
abbrev long : Name
long = repeat 22 0x61 ++ (0x1f534 ∷ [])

tag_bia : tagged_nickname (some bia) [] ≡ some (prefix ++ bia)
unfolding tagged_nickname nick_limit is_tagged starts_with take_room count_utf16 len_utf16 base_name
    prefix legacy_prefix
tag_bia = refl

tag_long : tagged_nickname none long ≡ some (prefix ++ repeat 22 0x61)
unfolding tagged_nickname nick_limit is_tagged starts_with take_room count_utf16 len_utf16 base_name
    prefix legacy_prefix
tag_long = refl

tagged_nickname_lem_example :
    (kept : Name) × (cut : Name) × (prefix ++ repeat 22 0x61 ≡ prefix ++ kept)
    × (base_name none long ≡ kept ++ cut)
    × (count_utf16 (prefix ++ repeat 22 0x61) ≤ 32)
    × Full 32 (count_utf16 (prefix ++ repeat 22 0x61)) cut
    × ((other : Name) → tagged_nickname (some (prefix ++ repeat 22 0x61)) other ≡ none)
tagged_nickname_lem_example = tagged_nickname_lem none long (prefix ++ repeat 22 0x61) tag_long

-- A server with one member, whose nickname is all that changes; member 9 is the bot.
abbrev named : Option Name → Member
named nick = record { id = 5; name = 0x61 ∷ []; nick = nick; roles = 3 ∷ [] }

abbrev bot : Member
bot = record { id = 9; name = 0x62 ∷ []; nick = none; roles = 4 ∷ [] }

abbrev cached_guild : CachedGuild
cached_guild = record { owner_id = 1; positions = (3, 1) ∷ (4, 10) ∷ []; members = (9, bot) ∷ [] }

abbrev one_member : Discord
one_member = record {
  State = Option Name;
  me = 9;
  member = λ s guild user. some (named s);
  cached = λ s guild. some cached_guild;
  edit_member = λ s guild user nickname. some (shown nickname);
}

abbrev answered : Queries
answered = record { saves = λ u. true; clears = λ u. true }

abbrev start : World one_member
start = record { rows = []; discord = some bia }

run_tag : (apply_nickname one_member answered 100 start 7 5).discord ≡ some (prefix ++ bia)
unfolding apply_nickname verdict tag_member edit_tagged tagged_nickname nick_limit is_tagged
    starts_with take_room count_utf16 len_utf16 base_name prefix legacy_prefix may_rename top get
run_tag = refl

-- What an edit takes is what is shown.
taken :
    (s t : Option Name) (m : Member) (nickname : Name)
    → some (named s) ≡ some m
    → some (shown nickname) ≡ some t
    → some (named t) ≡ some (record m { nick = shown nickname })
taken s t m nickname h e =
    subst (λ (x : Member). some (named t) ≡ some (record x { nick = shown nickname }))
      (some-injective (named s) m h) (cc e)

restore_nickname-apply_nickname_example :
    let after =
      restore_nickname one_member answered (apply_nickname one_member answered 100 start 7 5) 7 5 in
    (one_member.member after.discord 7 5 ≡ some (named (some bia))) × (after.rows ≡ [])
unfolding unwrap_or_default
restore_nickname-apply_nickname_example =
    restore_nickname-apply_nickname one_member answered 100 7 5 taken start (named (some bia)) refl
      (λ e. cc) refl refl (λ s nickname e. (some bia, refl))

-- Discord, where it refuses every edit.
abbrev refusing : Discord
refusing = record one_member { edit_member = λ s guild user nickname. none }

abbrev tag_row : LiveTag
tag_row = record {
  discord_guild_id = 7;
  discord_user_id = 5;
  previous_nick = some bia;
  tagged_at = 100;
}

abbrev tagged_world : World refusing
tagged_world = record { rows = tag_row ∷ []; discord = some (prefix ++ bia) }

restore_nickname_refused_example :
    let after = restore_nickname refusing answered tagged_world 7 5 in
    (after.discord ≡ some (prefix ++ bia))
    × (find? (of_member 7 5) after.rows ≡ none)
    × ((later : Queries) → restore_nickname refusing later after 7 5 ≡ after)
    × ((later : Queries) (at : ℕ) → apply_nickname refusing later at after 7 5 ≡ after)
unfolding of_member is_tagged starts_with prefix legacy_prefix
restore_nickname_refused_example =
    restore_nickname_refused refusing 7 5 answered tagged_world tag_row
      (named (some (prefix ++ bia))) refl refl refl refl refl

abbrev two_publishers : RoomBroadcast
two_publishers = record { discord_channel_id = 70; publishers = 5 ∷ 6 ∷ []; viewers = 3 }

update_tags_lem_example :
    let after =
      update_tags one_member answered 100 7 two_publishers (start, (7, 8) ∷ (4, 8) ∷ []) in
    ((g u : ℕ)
      → has_tag g u after.1
        ≡ (if 7 == g then Set.contains u (5 ∷ 6 ∷ []) else has_tag g u ((7, 8) ∷ (4, 8) ∷ [])))
    × ((later : Queries) (again : ℕ)
        → update_tags one_member later again 7 two_publishers after ≡ after)
update_tags_lem_example =
    update_tags_lem one_member answered 100 7 two_publishers (start, (7, 8) ∷ (4, 8) ∷ [])

-- Member 5 publishes in room 70 and member 6 in room 71 of the same server: the snapshot of room 71 takes
-- the tag off 5, who is still publishing.
abbrev here : RoomBroadcast
here = record { discord_channel_id = 70; publishers = 5 ∷ []; viewers = 3 }

abbrev there : RoomBroadcast
there = record { discord_channel_id = 71; publishers = 6 ∷ []; viewers = 2 }

other_room_untags :
    has_tag 7 5
      (update_tags one_member answered 101 7 there
        (update_tags one_member answered 100 7 here (start, []))).1
    ≡ false
unfolding Set.contains
other_room_untags =
    (update_tags_lem one_member answered 101 7 there
        (update_tags one_member answered 100 7 here (start, []))).0
      7 5
