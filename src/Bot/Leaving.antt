-- ===== src/Bot/Leaving.antt =====
-- What `guild_delete` of crates/bot/src/handler.rs leaves: the sweep after the server was taken out of the
-- replica finds none of its rooms.
use ldktela.Base.{
  ◌>>=◌, ℕ, Bool, false, Option, none, some, List, [], ◌∷◌, ◌==◌, ◌≡◌, refl, ◌∙◌, Bool-cases,
  Option-cases, inl, inr, arith,
}
use Prim.Native.String.{String}
use ldktela.Base.Int.{ℤ}
use ldktela.Base.Map.{get, remove, get-remove}
use ldktela.Replica.{Replica, GuildData, remove_guild, drop_guild, permissions, channel_info}
use ldktela.Replica.Index.{Inv}
use ldktela.Replica.Authority.{permissions-remove_guild}
use ldktela.Presence.{Table}
use ldktela.Bot.{
  occupied_channels, is_in_guild, sweep_channels, sweep_guild, guild_delete, State, swept, handle,
}

-- A channel found in another server, or in none, is not in this one.
found_in : ℕ → ℕ → ℕ → Option GuildData → Bool
found_in guild channel g o =
    elim (◌>>=◌ {B = ℕ × String} o (λ x. get channel x.channels >>= λ y. some (g, y.name))) [
      | none ↦ false
      | some info ↦ info.0 == guild
    ]

found_elsewhere :
    (guild channel g : ℕ) (o : Option GuildData)
    → (g == guild) ≡ false
    → found_in guild channel g o ≡ false
unfolding found_in
found_elsewhere guild channel g none h = refl
found_elsewhere guild channel g (some x) h = elim (Option-cases (get channel x.channels)) [
  | inl e ↦ rw (found_in, e) refl
  | inr (y, e) ↦ rw (found_in, e) h
]

found_nowhere :
    (guild channel g : ℕ) (m : List (ℕ × GuildData))
    → found_in guild channel g (get g (remove guild m)) ≡ false
found_nowhere guild channel g m = elim (Bool-cases (g == guild)) [
  | inl e ↦
      let gone : get g (remove guild m) ≡ none = ground (arith, get-remove guild g m) in
      rw gone (unfold found_in in refl)
  | inr e ↦ found_elsewhere guild channel g (get g (remove guild m)) e
]

is_in_guild-remove_guild :
    (r : Replica) (guild channel : ℕ) → is_in_guild (remove_guild r guild) guild channel ≡ false
unfolding is_in_guild channel_info remove_guild found_in
is_in_guild-remove_guild r guild channel =
    elim (Option-cases (get channel (drop_guild guild r.channel_index))) [
      | inl e ↦ rw (is_in_guild, channel_info, e) refl
      | inr (g, e) ↦ rw (is_in_guild, channel_info, e) (found_nowhere guild channel g r.guilds)
    ]

nothing_swept :
    (r : Replica) (discord_of : ℕ → ℤ) (guild : ℕ) (cs : List ℕ) (rows : Table)
    → sweep_channels (remove_guild r guild) discord_of guild cs rows ≡ rows
unfolding sweep_channels
nothing_swept r discord_of guild [] rows = refl
nothing_swept r discord_of guild (c ∷ cs) rows =
    rw (is_in_guild-remove_guild r guild c) (nothing_swept r discord_of guild cs rows)

-- When the bot is taken out of a server, nobody has permissions in its rooms any more, and yet nobody is
-- taken out of one: the presence table is what it was. The index of the replica is sound.
pub handle-guild_delete :
    (discord_of : ℕ → ℤ) (now : ℕ) (s : State) (guild u c : ℕ)
    → Inv s.replica
    → get c s.replica.channel_index ≡ some guild
    → let after : State = handle discord_of now s (guild_delete false guild) in
      (permissions after.replica u c ≡ none) × (after.presence ≡ s.presence)
unfolding handle swept sweep_guild
handle-guild_delete discord_of now s guild u c v here = (
  permissions-remove_guild s.replica guild u c v ∙ rw here (ground arith),
  nothing_swept s.replica discord_of guild (occupied_channels s.presence) s.presence,
)
