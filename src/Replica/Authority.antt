-- ===== src/Replica/Authority.antt =====
-- What each write to the replica does to the answers of `permissions`
-- (crates/api/src/discord/replica.rs): who loses access, and that nobody else does.
use Prim.Native.String.{String}
use ldktela.Base.{
  ◌>>=◌, ℕ, ◌≡◌, refl, Bool, ◌&&◌, Option, none, some, inl, inr, Option-cases, List, ◌==◌, any,
  if◌then◌else◌, arith,
}
use ldktela.Base.Map.{get, modify, keys, get-insert, get-remove, get-modify}
use ldktela.Replica.{
  channel_info, Replica, GuildData, resolve_in, replace_guild, remove_guild, without_member,
  without_channel, remove_member, remove_channel, drop_guild, permissions,
}
use ldktela.Replica.Index.{Inv, get-index_channels, get-drop_guild}

-- The lookups of `permissions` once the guild is known.
unfoldable pub look : ℕ → ℕ → GuildData → Option ℕ
look u c guild = get c guild.channels >>= λ channel.
    get u guild.members >>= λ role_ids. some (resolve_in guild u role_ids channel)

permissions_look :
    (r : Replica) (u c : ℕ)
    → permissions r u c ≡ (get c r.channel_index >>= λ g. get g r.guilds >>= look u c)
unfolding permissions look
permissions_look r u c = refl

-- What a change of one guild does to the answers.
look-modify :
    (u c k g : ℕ) (f : GuildData → GuildData) (guilds : List (ℕ × GuildData)) (gone : Bool)
    → ((d : GuildData) → look u c (f d) ≡ (if gone then none else look u c d))
    → (get g (modify k f guilds) >>= look u c)
      ≡ (if k == g && gone then none else get g guilds >>= look u c)
look-modify u c k g f guilds gone h = elim (Option-cases (get g guilds)) [
  | inl n ↦ ground (arith, get-modify k g f guilds)
  | inr (d, n) ↦ ground (arith, get-modify k g f guilds, h d)
]

look-without_member :
    (u c user : ℕ) (d : GuildData)
    → look u c (without_member user d) ≡ (if user == u then none else look u c d)
unfolding look without_member resolve_in
look-without_member u c user d = ground (arith, get-remove user u d.members)

look-without_channel :
    (u c channel : ℕ) (d : GuildData)
    → look u c (without_channel channel d) ≡ (if channel == c then none else look u c d)
unfolding look without_channel resolve_in
look-without_channel u c channel d = ground (arith, get-remove channel c d.channels)

-- A member who is removed from a guild has no permissions in its channels from then on, and every
-- other answer stays as it was.
pub permissions-remove_member :
    (r : Replica) (guild user u c : ℕ)
    → permissions (remove_member r guild user) u c
      ≡ (get c r.channel_index >>= λ g. if guild == g && user == u then none else permissions r u c)
unfolding remove_member
permissions-remove_member r guild user u c = elim (Option-cases (get c r.channel_index)) [
  | inl n ↦ rw (permissions_look, n)
  | inr (g, n) ↦
      rw (permissions_look, permissions_look, n)
        (look-modify u c guild g (without_member user) r.guilds (user == u)
          (look-without_member u c user))
]

-- Nobody has permissions in a channel that was removed, and every other answer stays as it was.
pub permissions-remove_channel :
    (r : Replica) (guild channel u c : ℕ)
    → permissions (remove_channel r guild channel) u c
      ≡ (if channel == c then none else permissions r u c)
unfolding remove_channel
permissions-remove_channel r guild channel u c = elim (Option-cases (get c r.channel_index)) [
  | inl n ↦
      rw (permissions_look, permissions_look) (ground (arith, get-remove channel c r.channel_index))
  | inr (g, n) ↦
      rw (permissions_look, permissions_look)
        (ground (
          arith,
          get-remove channel c r.channel_index,
          look-modify u c guild g (without_channel channel) r.guilds (channel == c)
              (look-without_channel u c channel),
        ))
]

-- Nobody has permissions in a channel of a guild that was removed, and every other answer stays as
-- it was. The index of the replica is sound.
pub permissions-remove_guild :
    (r : Replica) (guild u c : ℕ)
    → Inv r
    → permissions (remove_guild r guild) u c
      ≡ (get c r.channel_index >>= λ g. if g == guild then none else permissions r u c)
unfolding remove_guild
permissions-remove_guild r guild u c v = elim (Option-cases (get c r.channel_index)) [
  | inl n ↦ rw permissions_look (ground (arith, get-drop_guild c guild r.channel_index v.distinct))
  | inr (g, n) ↦
      rw (permissions_look, permissions_look)
        (ground
          (arith, get-drop_guild c guild r.channel_index v.distinct, get-remove guild g r.guilds))
]

-- After a guild is installed wholesale, its channels answer from what was installed, a channel that
-- only the old copy of the guild had answers for nobody, and every other channel stays as it was.
-- The index of the replica is sound.
pub permissions-replace_guild :
    (r : Replica) (guild : GuildData) (u c : ℕ)
    → Inv r
    → permissions (replace_guild r guild) u c ≡ (
        if any (λ i. i == c) (keys guild.channels)
        then look u c guild
        else get c r.channel_index >>= λ g. if g == guild.id then none else permissions r u c)
unfolding replace_guild
permissions-replace_guild r guild u c v = elim (Option-cases (get c r.channel_index)) [
  | inl n ↦
      rw (permissions_look, n)
        (ground (
          arith,
          get-index_channels c guild.id (keys guild.channels) (drop_guild guild.id r.channel_index),
          get-drop_guild c guild.id r.channel_index v.distinct,
          get-insert guild.id guild.id guild r.guilds,
        ))
  | inr (g, n) ↦
      rw (permissions_look, permissions_look, n)
        (ground (
          arith,
          get-index_channels c guild.id (keys guild.channels) (drop_guild guild.id r.channel_index),
          get-drop_guild c guild.id r.channel_index v.distinct,
          get-insert guild.id guild.id guild r.guilds,
          get-insert guild.id g guild r.guilds,
        ))
]

-- What a chain that gave a result went through.
found_bound {ℓ κ} :
    {A : Type ℓ} {B : Type κ} (o : Option A) (f : A → Option B) (b : B)
    → (o >>= f) ≡ some b
    → (a : A) × (o ≡ some a) × (f a ≡ some b)
found_bound none f b h = cc
found_bound (some a) f b h = (a, refl, h)

-- Where a member has permissions in a channel, the channel is known.
pub info-permissions :
    (r : Replica) (u c p : ℕ)
    → permissions r u c ≡ some p
    → (info : ℕ × String) × (channel_info r c ≡ some info)
unfolding permissions channel_info
info-permissions r u c p h =
    let (g, at_index, h1) = found_bound (get c r.channel_index) _ p h in
    let (guild, at_guild, h2) = found_bound (get g r.guilds) _ p h1 in
    let (channel, at_channel, h3) = found_bound (get c guild.channels) _ p h2 in
    ((g, channel.name), rw (at_index, at_guild, at_channel, channel_info) refl)
