-- ===== src/Replica.antt =====
-- crates/api/src/discord/replica.rs: the mirror of Discord's state that authorization reads.
--
-- The lock makes every method atomic: a method that writes returns the new replica. `Instant::now()`
-- is an argument, in milliseconds, and `elapsed` stops at 0 as the standard library's does.
pub mod Index
pub mod Reach
pub mod Authority
pub mod Grace
mod Tests
use Prim.Native.String.{String}
use ldktela.Base.{
  ◌>>=◌, ℕ, ◌-◌, Bool, true, false, not, Option, none, some, List, [], ◌∷◌, ◌++◌, length, ◌==◌, leb,
  find?, keep_if, if◌then◌else◌,
}
use ldktela.Base.Map.{get, insert, remove, retain, modify, keys, values}
use ldktela.Domain.Discord.{RoleRef, Overwrite, GuildRef, MemberRef, ChannelRef, resolve}

pub record ChannelData : Type 0 where
  pub id : ℕ
  pub name : String
  pub overwrites : List Overwrite

pub record GuildData : Type 0 where
  pub id : ℕ
  pub owner_id : ℕ
  pub roles : List RoleRef
  pub members : List (ℕ × List ℕ)
  pub channels : List (ℕ × ChannelData)
  pub voice : List (ℕ × ℕ)

pub data Staleness : Type 0 where
  fresh stale : Staleness

-- The `State` behind the lock, and the grace window.
pub record Replica : Type 0 where
  pub guilds : List (ℕ × GuildData)
  pub channel_index : List (ℕ × ℕ)
  pub connected : Bool
  pub disconnected_since : Option ℕ
  pub grace : ℕ

unfoldable pub new : ℕ → Replica
new grace = record {
  guilds = [];
  channel_index = [];
  connected = false;
  disconnected_since = none;
  grace = grace;
}

-- The loop over the channels of a guild that enters each into the index.
unfoldable pub index_channels : ℕ → List ℕ → List (ℕ × ℕ) → List (ℕ × ℕ)
index_channels guild_id [] index = index
index_channels guild_id (c ∷ cs) index = index_channels guild_id cs (insert c guild_id index)

-- `retain(|_, g| *g != guild_id)`
unfoldable pub drop_guild : ℕ → List (ℕ × ℕ) → List (ℕ × ℕ)
drop_guild guild_id index = retain (λ _ g. not (g == guild_id)) index

unfoldable pub replace_guild : Replica → GuildData → Replica
replace_guild r guild = record r {
  channel_index =
      index_channels guild.id (keys guild.channels) (drop_guild guild.id r.channel_index);
  guilds = insert guild.id guild r.guilds;
}

unfoldable pub remove_guild : Replica → ℕ → Replica
remove_guild r guild_id = record r {
  channel_index = drop_guild guild_id r.channel_index;
  guilds = remove guild_id r.guilds;
}

-- What the writers below do to one guild of the map.
unfoldable pub with_member : ℕ → List ℕ → GuildData → GuildData
with_member user_id role_ids g = record g { members = insert user_id role_ids g.members }

unfoldable pub without_member : ℕ → GuildData → GuildData
without_member user_id g = record g { members = remove user_id g.members }

-- The first role of that id is overwritten, or the role is pushed.
unfoldable pub put_role : RoleRef → List RoleRef → List RoleRef
put_role role [] = role ∷ []
put_role role (r ∷ rs) = if r.id == role.id then role ∷ rs else r ∷ put_role role rs

unfoldable pub with_role : RoleRef → GuildData → GuildData
with_role role g = record g { roles = put_role role g.roles }

unfoldable pub strip_role : ℕ → List (ℕ × List ℕ) → List (ℕ × List ℕ)
strip_role role_id [] = []
strip_role role_id ((user, roles) ∷ ms) =
    (user, keep_if (λ r. not (r == role_id)) roles) ∷ strip_role role_id ms

unfoldable pub without_role : ℕ → GuildData → GuildData
without_role role_id g = record g {
  roles = keep_if (λ r. not (r.id == role_id)) g.roles;
  members = strip_role role_id g.members;
}

unfoldable pub with_channel : ChannelData → GuildData → GuildData
with_channel channel g = record g { channels = insert channel.id channel g.channels }

unfoldable pub without_channel : ℕ → GuildData → GuildData
without_channel channel_id g = record g { channels = remove channel_id g.channels }

unfoldable pub with_voice : ℕ → Option ℕ → GuildData → GuildData
with_voice user_id none g = record g { voice = remove user_id g.voice }
with_voice user_id (some channel) g = record g { voice = insert user_id channel g.voice }

unfoldable pub upsert_member : Replica → ℕ → ℕ → List ℕ → Replica
upsert_member r guild_id user_id role_ids = record r {
  guilds = modify guild_id (with_member user_id role_ids) r.guilds;
}

unfoldable pub remove_member : Replica → ℕ → ℕ → Replica
remove_member r guild_id user_id = record r {
  guilds = modify guild_id (without_member user_id) r.guilds;
}

unfoldable pub upsert_role : Replica → ℕ → RoleRef → Replica
upsert_role r guild_id role = record r { guilds = modify guild_id (with_role role) r.guilds }

unfoldable pub remove_role : Replica → ℕ → ℕ → Replica
remove_role r guild_id role_id = record r {
  guilds = modify guild_id (without_role role_id) r.guilds;
}

unfoldable pub upsert_channel : Replica → ℕ → ChannelData → Replica
upsert_channel r guild_id channel = elim (get guild_id r.guilds) [
  | none ↦ r
  | some g ↦ record r {
    channel_index = insert channel.id guild_id r.channel_index;
    guilds = modify guild_id (with_channel channel) r.guilds;
  }
]

unfoldable pub remove_channel : Replica → ℕ → ℕ → Replica
remove_channel r guild_id channel_id = record r {
  channel_index = remove channel_id r.channel_index;
  guilds = modify guild_id (without_channel channel_id) r.guilds;
}

unfoldable pub set_connected : Replica → Bool → ℕ → Replica
set_connected r connected now = record r {
  connected = connected;
  disconnected_since = if connected then none else some now;
}

unfoldable pub staleness : Replica → ℕ → Staleness
staleness r now = if r.connected then fresh else elim r.disconnected_since [
  | some since ↦ if leb (now - since) r.grace then fresh else stale
  | none ↦ stale
]

-- What a member of a guild may do in one of its channels.
unfoldable pub resolve_in : GuildData → ℕ → List ℕ → ChannelData → ℕ
resolve_in g user role_ids channel =
    resolve (record { id = g.id; owner_id = g.owner_id; roles = g.roles })
      (record { user_id = user; role_ids = role_ids })
      (record { id = channel.id; overwrites = channel.overwrites })

unfoldable pub permissions : Replica → ℕ → ℕ → Option ℕ
permissions r user channel_id = do
  guild_id ← get channel_id r.channel_index
  guild ← get guild_id r.guilds
  channel ← get channel_id guild.channels
  role_ids ← get user guild.members
  some (resolve_in guild user role_ids channel)

unfoldable pub set_voice : Replica → ℕ → ℕ → Option ℕ → Replica
set_voice r guild_id user_id channel_id = record r {
  guilds = modify guild_id (with_voice user_id channel_id) r.guilds;
}

-- `find_map`: the first guild that has the user in voice, in the order of the map.
unfoldable pub first_voice : ℕ → List GuildData → Option ℕ
first_voice user [] = none
first_voice user (g ∷ gs) = elim (get user g.voice) [ none ↦ first_voice user gs | some c ↦ some c ]

unfoldable pub voice_channel_of : Replica → ℕ → Option ℕ
unfolding first_voice
voice_channel_of r user = first_voice user (values r.guilds)

unfoldable pub channel_info : Replica → ℕ → Option (ℕ × String)
channel_info r channel_id = do
  guild_id ← get channel_id r.channel_index
  guild ← get guild_id r.guilds
  channel ← get channel_id guild.channels
  some (guild_id, channel.name)

unfoldable pub guild_count : Replica → ℕ
guild_count r = length r.guilds
