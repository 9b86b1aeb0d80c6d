-- ===== src/Announce/Tags.antt =====
-- Tagging one member: crates/db/src/repo/live_tags.rs, and `apply_nickname`, `restore_nickname` and
-- `sweep_stale_tags` of crates/bot/src/announce.rs.
--
-- Discord is a parameter: what it answers about members and servers, and what an edit leaves, or none
-- where it refuses. A query that fails leaves the table as it was.
use ldktela.Base.{
  ℕ, Bool, ◌&&◌, Option, none, some, List, [], ◌∷◌, ◌++◌, ◌==◌, leb, if◌then◌else◌, find?, keep_if,
  any, not,
}
use Prim.Native.Nat.{max}
use ldktela.Base.Map.{get}
use ldktela.Announce.{Name, RenameVerdict, allowed, owner, above_bot, may_rename, tagged_nickname}

pub record LiveTag : Type 0 where
  pub discord_guild_id : ℕ
  pub discord_user_id : ℕ
  pub previous_nick : Option Name
  pub tagged_at : ℕ

unfoldable pub of_member : ℕ → ℕ → LiveTag → Bool
of_member guild user tag = tag.discord_guild_id == guild && tag.discord_user_id == user

-- `ON CONFLICT DO NOTHING`
unfoldable pub remember : List LiveTag → ℕ → ℕ → Option Name → ℕ → List LiveTag
remember rows guild user previous at =
    if any (of_member guild user) rows
    then rows
    else rows
      ++ (record {
        discord_guild_id = guild;
        discord_user_id = user;
        previous_nick = previous;
        tagged_at = at;
      }
          ∷ [])

-- The row that is deleted, and the rows that stay.
unfoldable pub forget : List LiveTag → ℕ → ℕ → Option LiveTag × List LiveTag
forget rows guild user =
    (find? (of_member guild user) rows, keep_if (λ tag. not (of_member guild user tag)) rows)

-- `ORDER BY tagged_at`
unfoldable pub by_time : LiveTag → List LiveTag → List LiveTag
by_time tag [] = tag ∷ []
by_time tag (x ∷ xs) = if leb tag.tagged_at x.tagged_at then tag ∷ x ∷ xs else x ∷ by_time tag xs

unfoldable pub all : List LiveTag → List LiveTag
all [] = []
all (tag ∷ rows) = by_time tag (all rows)

pub record Member : Type 0 where
  pub id : ℕ
  pub name : Name
  pub nick : Option Name
  pub roles : List ℕ

-- What the bot's cache keeps of a server: the positions of its roles, and its members.
pub record CachedGuild : Type 0 where
  pub owner_id : ℕ
  pub positions : List (ℕ × ℕ)
  pub members : List (ℕ × Member)

pub record Discord : Type 1 where
  pub State : Type 0
  pub me : ℕ
  pub member : State → ℕ → ℕ → Option Member
  pub cached : State → ℕ → Option CachedGuild
  pub edit_member : State → ℕ → ℕ → Name → Option State

unfoldable pub top : CachedGuild → List ℕ → ℕ
top guild [] = 0
top guild (role ∷ roles) =
    let rest : ℕ = top guild roles in
    elim (get role guild.positions) [ none ↦ rest | some position ↦ max position rest ]

unfoldable pub unwrap_or_default : Option Name → Name
unwrap_or_default none = []
unwrap_or_default (some nick) = nick

-- Whether the queries about a member, during one call, are answered.
pub record Queries : Type 0 where
  pub saves : ℕ → Bool
  pub clears : ℕ → Bool

module _ (d : Discord) where
  pub record World : Type 0 where
    pub rows : List LiveTag
    pub discord : d.State

  unfoldable pub verdict : d.State → ℕ → Member → RenameVerdict
  verdict s guild_id target = elim (d.cached s guild_id) [
    | none ↦ above_bot
    | some guild ↦ elim (get d.me guild.members) [
      | none ↦ above_bot
      | some bot ↦
          may_rename target.id (top guild target.roles) (top guild bot.roles) guild.owner_id
    ]
  ]

  -- The edit, and the record taken back where it is refused.
  unfoldable pub edit_tagged : Bool → World → ℕ → ℕ → Name → World
  edit_tagged clears w guild user nickname = elim (d.edit_member w.discord guild user nickname) [
    | none ↦ if clears then record w { rows = (forget w.rows guild user).1 } else w
    | some s ↦ record w { discord = s }
  ]

  unfoldable pub tag_member : Queries → ℕ → World → ℕ → ℕ → Member → World
  tag_member q at w guild user member = elim (tagged_nickname member.nick member.name) [
    | none ↦ w
    | some nickname ↦
        if q.saves user
        then edit_tagged (q.clears user)
            (record w { rows = remember w.rows guild user member.nick at }) guild user nickname
        else w
  ]

  unfoldable pub apply_nickname : Queries → ℕ → World → ℕ → ℕ → World
  apply_nickname q at w guild user = elim (d.member w.discord guild user) [
    | none ↦ w
    | some member ↦ elim (verdict w.discord guild member) [
      | allowed ↦ tag_member q at w guild user member
      | owner ↦ w
      | above_bot ↦ w
    ]
  ]

  -- What the edit leaves of Discord: a refusal is only logged.
  unfoldable pub edit_restored : d.State → ℕ → ℕ → Name → d.State
  edit_restored s guild user nickname = elim (d.edit_member s guild user nickname) [
    | none ↦ s
    | some edited ↦ edited
  ]

  unfoldable pub restore_nickname : Queries → World → ℕ → ℕ → World
  restore_nickname q w guild user =
      if q.clears user
      then elim (forget w.rows guild user).0 [
        | none ↦ w
        | some saved ↦ record {
          rows = (forget w.rows guild user).1;
          discord = edit_restored w.discord guild user (unwrap_or_default saved.previous_nick);
        }
      ]
      else w

  unfoldable pub restore_all : Queries → World → List LiveTag → World
  restore_all q w [] = w
  restore_all q w (tag ∷ left) =
      restore_all q (restore_nickname q w tag.discord_guild_id tag.discord_user_id) left

  -- `listed` is whether the query for the rows is answered.
  unfoldable pub sweep_stale_tags : Bool → Queries → World → World
  sweep_stale_tags listed q w = if listed then restore_all q w (all w.rows) else w
