-- ===== src/Replica/Index.antt =====
-- The channel index of the replica (crates/api/src/discord/replica.rs) never dangles.
use ldktela.Base.{
  ℕ, ◌≡◌, refl, ap, ◌∙◌, Bool, true, false, not, none, some, inl, inr, Option-cases, Bool-cases,
  List, [], ◌∷◌, ◌==◌, any, if◌then◌else◌, arith,
}
use ldktela.Base.Map.{
  get, insert, modify, keys, kept, Distinct, get-insert, get-remove, get-retain, get-modify,
  insert-Distinct, retain-Distinct,
}
use ldktela.Replica.{
  Replica, GuildData, ChannelData, new, index_channels, drop_guild, replace_guild, remove_guild,
}

-- Channel `c` is one of the mirrored guild `g`.
pub record Mirrored (c g : ℕ) (guilds : List (ℕ × GuildData)) : Type 0 where
  pub guild : GuildData
  pub channel : ChannelData
  pub guild_here : get g guilds ≡ some guild
  pub channel_here : get c guild.channels ≡ some channel

pub record Inv (r : Replica) : Type 0 where
  pub distinct : Distinct r.channel_index
  pub sound : (c g : ℕ) → get c r.channel_index ≡ some g → Mirrored c g r.guilds
  pub keyed : (g : ℕ) (d : GuildData) → get g r.guilds ≡ some d → d.id ≡ g

is_key {ℓ} : {V : Type ℓ} → ℕ → List (ℕ × V) → Bool
is_key c m = any (λ i. i == c) (keys m)

pub get-index_channels :
    (c g : ℕ) (cs : List ℕ) (m : List (ℕ × ℕ))
    → get c (index_channels g cs m) ≡ (if any (λ i. i == c) cs then some g else get c m)
unfolding index_channels
get-index_channels c g [] m = refl
get-index_channels c g (i ∷ cs) m =
    ground (arith, get-index_channels c g cs (insert i g m), get-insert i c g m)

pub get-of_key {ℓ} :
    {V : Type ℓ} (c : ℕ) (m : List (ℕ × V))
    → any (λ i. i == c) (keys m) ≡ true
    → (v : V) × (get c m ≡ some v)
unfolding get keys
get-of_key c [] h = cc
get-of_key c ((i, w) ∷ m) h = elim (Bool-cases (i == c)) [
  | inl e ↦ (w, rw (e, get))
  | inr e ↦ let (v, found) = get-of_key c m (ground arith) in (v, rw (e, get) found)
]

pub key-of_get {ℓ} :
    {V : Type ℓ} (c : ℕ) (m : List (ℕ × V)) → any (λ i. i == c) (keys m) ≡ false → get c m ≡ none
unfolding get keys
key-of_get c [] h = refl
key-of_get c ((i, w) ∷ m) h = ground (arith, key-of_get c m)

pub get-drop_guild :
    (c g : ℕ) (m : List (ℕ × ℕ))
    → Distinct m
    → get c (drop_guild g m)
      ≡ elim (get c m) [ none ↦ none | some h ↦ if h == g then none else some h ]
unfolding drop_guild kept
get-drop_guild c g m d = ground (arith, get-retain (λ _ h. not (h == g)) c m d)

index_channels-Distinct :
    (g : ℕ) (cs : List ℕ) (m : List (ℕ × ℕ)) → Distinct m → Distinct (index_channels g cs m)
unfolding index_channels
index_channels-Distinct g [] m d = d
index_channels-Distinct g (c ∷ cs) m d =
    index_channels-Distinct g cs (insert c g m) (insert-Distinct c g m d)

pub new-Inv : (grace : ℕ) → Inv (new grace)
unfolding new get
new-Inv grace = record { distinct = tt; sound = λ c g e. cc; keyed = λ g d e. cc }

pub transfer :
    {c g : ℕ} {guilds guilds' : List (ℕ × GuildData)}
    → Mirrored c g guilds
    → get g guilds' ≡ get g guilds
    → Mirrored c g guilds'
transfer v e = record {
  guild = v.guild;
  channel = v.channel;
  guild_here = e ∙ v.guild_here;
  channel_here = v.channel_here;
}

-- What an entry of the index says after a guild is dropped from it.
entry_kept :
    (c g k : ℕ) (m : List (ℕ × ℕ))
    → Distinct m
    → get c (drop_guild k m) ≡ some g
    → (get c m ≡ some g) × ((k == g) ≡ false)
entry_kept c g k m d e = elim (Option-cases (get c m)) [
  | inl n ↦ ground (arith, get-drop_guild c k m d)
  | inr (h, n) ↦ ground (arith, get-drop_guild c k m d)
]

other_guild :
    (g k : ℕ) (d : GuildData) (m : List (ℕ × GuildData))
    → (k == g) ≡ false
    → get g (insert k d m) ≡ get g m
other_guild g k d m h = ground (arith, get-insert k g d m)

replace_guild_sound :
    (r : Replica) (guild : GuildData) (c g : ℕ)
    → Inv r
    → get c (replace_guild r guild).channel_index ≡ some g
    → Mirrored c g (replace_guild r guild).guilds
unfolding replace_guild
replace_guild_sound r guild c g v e = elim (Bool-cases (any (λ i. i == c) (keys guild.channels))) [
  | inl key ↦
      let (channel, found) = get-of_key c guild.channels key in
      record {
        guild = guild;
        channel = channel;
        guild_here = ground (
          arith,
          get-insert guild.id g guild r.guilds,
          get-index_channels c guild.id (keys guild.channels) (drop_guild guild.id r.channel_index),
        );
        channel_here = found;
      }
  | inr other ↦
      let before : get c (drop_guild guild.id r.channel_index) ≡ some g = ground (
        arith,
        get-index_channels c guild.id (keys guild.channels) (drop_guild guild.id r.channel_index),
      ) in
      let (old, apart) = entry_kept c g guild.id r.channel_index v.distinct before in
      transfer (v.sound c g old) (other_guild g guild.id guild r.guilds apart)
]

pub replace_guild-Inv : (r : Replica) (guild : GuildData) → Inv r → Inv (replace_guild r guild)
unfolding replace_guild drop_guild
replace_guild-Inv r guild v = record {
  distinct =
      index_channels-Distinct guild.id (keys guild.channels) _
        (retain-Distinct _ r.channel_index v.distinct);
  sound = λ c g e. replace_guild_sound r guild c g v e;
  keyed = λ g d e. ground (arith, get-insert guild.id g guild r.guilds, v.keyed g d);
}

pub remove_guild-Inv : (r : Replica) (k : ℕ) → Inv r → Inv (remove_guild r k)
unfolding remove_guild drop_guild
remove_guild-Inv r k v = record {
  distinct = retain-Distinct _ r.channel_index v.distinct;
  sound = λ c g e.
      let (old, apart) = entry_kept c g k r.channel_index v.distinct e in
      transfer (v.sound c g old) (ground (arith, get-remove k g r.guilds));
  keyed = λ g d e. ground (arith, get-remove k g r.guilds, v.keyed g d);
}

-- A change of one guild that keeps its id and the channel.
pub modify-keyed :
    (k : ℕ) (f : GuildData → GuildData) (guilds : List (ℕ × GuildData))
    → ((d : GuildData) → (f d).id ≡ d.id)
    → ((g : ℕ) (d : GuildData) → get g guilds ≡ some d → d.id ≡ g)
    → (g : ℕ) (d : GuildData) → get g (modify k f guilds) ≡ some d
    → d.id ≡ g
modify-keyed k f guilds ids keyed g d e = elim (Option-cases (get g guilds)) [
  | inl n ↦ ground (arith, get-modify k g f guilds)
  | inr (old, n) ↦ ground (arith, get-modify k g f guilds, ids old, keyed g old n)
]

pub modify-Mirrored :
    (c g k : ℕ) (f : GuildData → GuildData) (guilds : List (ℕ × GuildData))
    → ((d : GuildData) (ch : ChannelData)
        → get c d.channels ≡ some ch
        → (ch' : ChannelData) × (get c (f d).channels ≡ some ch'))
    → Mirrored c g guilds
    → Mirrored c g (modify k f guilds)
modify-Mirrored c g k f guilds chans v = elim (Bool-cases (k == g)) [
  | inl here ↦
      let (ch, found) = chans v.guild v.channel v.channel_here in
      record {
        guild = f v.guild;
        channel = ch;
        guild_here = ground (arith, get-modify k g f guilds, v.guild_here);
        channel_here = found;
      }
  | inr other ↦ transfer v (ground (arith, get-modify k g f guilds, v.guild_here))
]

-- A writer that leaves the index and the channels alone.
pub modify-Inv :
    (r : Replica) (k : ℕ) (f : GuildData → GuildData)
    → ((d : GuildData) → (f d).id ≡ d.id)
    → ((d : GuildData) → (f d).channels ≡ d.channels)
    → Inv r
    → Inv (record r { guilds = modify k f r.guilds })
modify-Inv r k f ids chans v = record {
  distinct = v.distinct;
  sound = λ c g e.
      modify-Mirrored c g k f r.guilds (λ d ch found. (ch, ap (get c) (chans d) ∙ found))
        (v.sound c g e);
  keyed = modify-keyed k f r.guilds ids v.keyed;
}
