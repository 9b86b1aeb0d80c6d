-- ===== src/Replica/Reach.antt =====
-- The index of the replica stays sound over any sequence of the bot's writes
-- (crates/api/src/discord/replica.rs).
use ldktela.Base.{
  ℕ, ◌≡◌, refl, Bool, false, Option, none, some, inl, inr, Option-cases, Bool-cases, List, [], ◌∷◌,
  ◌==◌, arith,
}
use ldktela.Base.Map.{
  get, insert, modify, get-insert, get-remove, get-modify, insert-Distinct, remove-Distinct,
}
use ldktela.Domain.Discord.{RoleRef}
use ldktela.Replica.{
  Replica, GuildData, ChannelData, new, replace_guild, remove_guild, with_member, without_member,
  with_role, without_role, with_channel, without_channel, with_voice, upsert_member, remove_member,
  upsert_role, remove_role, upsert_channel, remove_channel, set_connected, set_voice,
}
use ldktela.Replica.Index.{
  Mirrored, Inv, new-Inv, replace_guild-Inv, remove_guild-Inv, modify-Mirrored, modify-Inv,
  modify-keyed,
}

with_channel-keeps :
    (c : ℕ) (ch : ChannelData) (d : GuildData) (old : ChannelData)
    → get c d.channels ≡ some old
    → (ch' : ChannelData) × (get c (with_channel ch d).channels ≡ some ch')
unfolding with_channel
with_channel-keeps c ch d old e = elim (Bool-cases (ch.id == c)) [
  | inl same ↦ (ch, ground (arith, get-insert ch.id c ch d.channels))
  | inr other ↦ (old, ground (arith, get-insert ch.id c ch d.channels))
]

upsert_channel_sound :
    (r : Replica) (k : ℕ) (ch : ChannelData) (guild : GuildData) (c g : ℕ)
    → Inv r
    → get k r.guilds ≡ some guild
    → get c (insert ch.id k r.channel_index) ≡ some g
    → Mirrored c g (modify k (with_channel ch) r.guilds)
unfolding with_channel
upsert_channel_sound r k ch guild c g v here e = elim (Bool-cases (ch.id == c)) [
  | inl same ↦ record {
    guild = with_channel ch guild;
    channel = ch;
    guild_here =
        ground
          (arith, get-insert ch.id c k r.channel_index, get-modify k g (with_channel ch) r.guilds);
    channel_here = ground (arith, get-insert ch.id c ch guild.channels);
  }
  | inr other ↦
      modify-Mirrored c g k (with_channel ch) r.guilds (with_channel-keeps c ch)
        (v.sound c g (ground (arith, get-insert ch.id c k r.channel_index)))
]

upsert_channel-Inv : (r : Replica) (k : ℕ) (ch : ChannelData) → Inv r → Inv (upsert_channel r k ch)
unfolding upsert_channel with_channel
upsert_channel-Inv r k ch v = elim (Option-cases (get k r.guilds)) [
  | inl missing ↦ rw (missing, upsert_channel) v
  | inr (guild, here) ↦
      rw (here, upsert_channel)
        (record {
          distinct = insert-Distinct ch.id k r.channel_index v.distinct;
          sound = λ c g e. upsert_channel_sound r k ch guild c g v here e;
          keyed = modify-keyed k (with_channel ch) r.guilds (λ d. refl) v.keyed;
        })
]

remove_channel-Inv : (r : Replica) (k c : ℕ) → Inv r → Inv (remove_channel r k c)
unfolding remove_channel without_channel
remove_channel-Inv r k x v = record {
  distinct = remove-Distinct x r.channel_index v.distinct;
  sound = λ c g e.
      let apart : (x == c) ≡ false = ground (arith, get-remove x c r.channel_index) in
      modify-Mirrored c g k (without_channel x) r.guilds
        (λ d ch found. (ch, ground (arith, get-remove x c d.channels)))
        (v.sound c g (ground (arith, get-remove x c r.channel_index)));
  keyed = modify-keyed k (without_channel x) r.guilds (λ d. refl) v.keyed;
}

-- What the bot's gateway handler may call.
pub data Call : Type 0 where
  guild_replaced : GuildData → Call
  guild_removed : ℕ → Call
  member_upserted : ℕ → ℕ → List ℕ → Call
  member_removed : ℕ → ℕ → Call
  role_upserted : ℕ → RoleRef → Call
  role_removed : ℕ → ℕ → Call
  channel_upserted : ℕ → ChannelData → Call
  channel_removed : ℕ → ℕ → Call
  connection_set : Bool → ℕ → Call
  voice_set : ℕ → ℕ → Option ℕ → Call

unfoldable pub step : Replica → Call → Replica
step r (guild_replaced g) = replace_guild r g
step r (guild_removed k) = remove_guild r k
step r (member_upserted k u ids) = upsert_member r k u ids
step r (member_removed k u) = remove_member r k u
step r (role_upserted k role) = upsert_role r k role
step r (role_removed k id) = remove_role r k id
step r (channel_upserted k ch) = upsert_channel r k ch
step r (channel_removed k c) = remove_channel r k c
step r (connection_set up now) = set_connected r up now
step r (voice_set k u c) = set_voice r k u c

unfoldable pub run : Replica → List Call → Replica
run r [] = r
run r (c ∷ cs) = run (step r c) cs

with_voice-same :
    (u : ℕ) (c : Option ℕ) (d : GuildData)
    → ((with_voice u c d).id ≡ d.id) × ((with_voice u c d).channels ≡ d.channels)
unfolding with_voice
with_voice-same u none d = (refl, refl)
with_voice-same u (some c) d = (refl, refl)

pub step-Inv : (r : Replica) (c : Call) → Inv r → Inv (step r c)
unfolding step upsert_member remove_member upsert_role remove_role set_connected set_voice
    with_member without_member with_role without_role
step-Inv r (guild_replaced g) v = replace_guild-Inv r g v
step-Inv r (guild_removed k) v = remove_guild-Inv r k v
step-Inv r (member_upserted k u ids) v = modify-Inv r k _ (λ d. refl) (λ d. refl) v
step-Inv r (member_removed k u) v = modify-Inv r k _ (λ d. refl) (λ d. refl) v
step-Inv r (role_upserted k role) v = modify-Inv r k _ (λ d. refl) (λ d. refl) v
step-Inv r (role_removed k id) v = modify-Inv r k _ (λ d. refl) (λ d. refl) v
step-Inv r (channel_upserted k ch) v = upsert_channel-Inv r k ch v
step-Inv r (channel_removed k c) v = remove_channel-Inv r k c v
step-Inv r (connection_set up now) v = record {
  distinct = v.distinct;
  sound = v.sound;
  keyed = v.keyed;
}
step-Inv r (voice_set k u c) v =
    modify-Inv r k _ (λ d. (with_voice-same u c d).0) (λ d. (with_voice-same u c d).1) v

run-Inv : (r : Replica) (cs : List Call) → Inv r → Inv (run r cs)
unfolding run
run-Inv r [] v = v
run-Inv r (c ∷ cs) v = run-Inv (step r c) cs (step-Inv r c v)

-- After any sequence of writes to a new replica, the index names for a channel only a guild that is
-- mirrored, under its own id, and that has the channel.
pub run-new-Inv : (grace : ℕ) (cs : List Call) → Inv (run (new grace) cs)
run-new-Inv grace cs = run-Inv (new grace) cs (new-Inv grace)
