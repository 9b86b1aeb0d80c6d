-- ===== src/Admission/Access.antt =====
-- What the guards of crates/api/src/permissions.rs let through and give away.
use mathlib.Core.Path.{subst}
use ldktela.Replica.Authority.{info-permissions}
use ldktela.Base.{
  ℕ, ◌≡◌, refl, ap, ◌∙◌, ◌↔◌, ◌⊎◌, inl, inr, Bool, true, false, Option, none, some, List, ◌∷◌,
  arith,
}
use ldktela.Base.Int.{ℤ, try_u64, i64_or_default}
use ldktela.Protocol.{PublicationSource}
use ldktela.Domain.Discord.{can_view, can_join_room, can_publish}
use ldktela.Replica
use ldktela.Replica.{Replica, Staleness, fresh, stale}
use ldktela.Rooms.{Rooms, claim_publications}
use ldktela.Admission.{
  ◌>>=◌, UserRow, RoomAccess, AppError, replica_stale, user_missing, invisible, forbidden, internal,
  Outcome, ok, err, ok_or, require, is_fresh, room_access, publish_access, access_for, claimed,
  key_of, token,
}

-- What a chain that gave a result went through.
ok_bound {ℓ κ} :
    {A : Type ℓ} {B : Type κ} (o : Outcome A) (f : A → Outcome B) (b : B)
    → (o >>= f) ≡ ok b
    → (a : A) × (o ≡ ok a) × (f a ≡ ok b)
ok_bound (ok a) f b h = (a, refl, h)
ok_bound (err e) f b h = cc

required : (e : AppError) (t x : Bool) → require e t ≡ ok x → t ≡ true
unfolding require
required e true x h = refl
required e false x h = cc

given {ℓ} : {A : Type ℓ} (e : AppError) (o : Option A) (a : A) → ok_or e o ≡ ok a → o ≡ some a
unfolding ok_or
given e none a h = cc
given e (some x) a h = cc

join-view : (p : ℕ) → can_join_room p ≡ true → can_view p ≡ true
unfolding can_join_room
join-view p h = ground arith

fresh_lem : (s : Staleness) → is_fresh s ≡ true → s ≡ fresh
unfolding is_fresh
fresh_lem fresh h = refl
fresh_lem stale h = cc

-- What a member holds who may be in the room.
abbrev pub Holds : Replica → ℕ → UserRow → ℤ → ℕ → Type 0
Holds r now row channel p =
    (Replica.staleness r now ≡ fresh)
    × ((d : ℕ) × ((c : ℕ) × (try_u64 row.discord_user_id ≡ some d)
          × (try_u64 channel ≡ some c)
          × (Replica.permissions r d c ≡ some p)))
    × (can_join_room p ≡ true)

permissions_of : Outcome RoomAccess → ℕ
permissions_of (ok a) = a.permissions
permissions_of (err e) = 0

access-Holds :
    (r : Replica) (users : ℕ → Option UserRow) (now user : ℕ) (channel : ℤ) (a : RoomAccess)
    → room_access r users now user channel ≡ ok a
    → (row : UserRow) × (users user ≡ some row) × Holds r now row channel a.permissions
unfolding room_access permissions_of
access-Holds r users now user channel a h =
    let (_, vouched, h1) =
      ok_bound (require replica_stale (is_fresh (Replica.staleness r now))) _ a h in
    let (row, known, h2) = ok_bound (ok_or user_missing (users user)) _ a h1 in
    let (c, is_channel, h3) = ok_bound (ok_or invisible (try_u64 channel)) _ a h2 in
    let (d, is_user, h4) = ok_bound (ok_or internal (try_u64 row.discord_user_id)) _ a h3 in
    let (p, seen, h5) = ok_bound (ok_or invisible (Replica.permissions r d c)) _ a h4 in
    let (_, views, h6) = ok_bound (require invisible (can_view p)) _ a h5 in
    let (x, joins, h7) = ok_bound (require forbidden (can_join_room p)) _ a h6 in
    let (info, named, h8) = ok_bound (ok_or invisible (Replica.channel_info r c)) _ a h7 in
    (
      row,
      given user_missing (users user) row known,
      subst (Holds r now row channel) (ap permissions_of h8) (
        fresh_lem (Replica.staleness r now)
            (required replica_stale (is_fresh (Replica.staleness r now)) _ vouched),
        (
          d,
          (
            c,
            given internal (try_u64 row.discord_user_id) d is_user,
            given invisible (try_u64 channel) c is_channel,
            given invisible (Replica.permissions r d c) p seen,
          ),
        ),
        required forbidden (can_join_room p) x joins,
      ),
    )

-- A caller who holds the rights is let in.
Holds-access :
    (r : Replica) (users : ℕ → Option UserRow) (now user : ℕ) (channel : ℤ) (row : UserRow) (p : ℕ)
    → users user ≡ some row
    → Holds r now row channel p
    → (a : RoomAccess) × (room_access r users now user channel ≡ ok a) × (a.permissions ≡ p)
unfolding room_access ok_or require is_fresh
Holds-access r users now user channel row p known
      (vouched, (d, (c, is_user, is_channel, seen)), joins) =
    let (info, named) = info-permissions r d c p seen in
    (
      record {
        user = row;
        permissions = p;
        discord_guild_id = i64_or_default info.0;
        channel_name = info.1;
      },
      rw
          (
            vouched,
            is_fresh,
            known,
            is_channel,
            is_user,
            seen,
            join-view p joins,
            joins,
            named,
            room_access,
            require,
            ok_or,
          )
          refl,
      refl,
    )

-- `room_access` lets a caller in exactly if the replica vouches for its answers, the caller is a known
-- user, both ids are snowflakes, and the caller may see and join the channel in Discord.
pub room_access-granted :
    (r : Replica) (users : ℕ → Option UserRow) (now user : ℕ) (channel : ℤ)
    → ((a : RoomAccess) × (room_access r users now user channel ≡ ok a))
      ↔ ((row : UserRow) × ((users user ≡ some row) × ((p : ℕ) × Holds r now row channel p)))
room_access-granted r users now user channel = (
  λ g.
      let (row, known, v) = access-Holds r users now user channel g.0 g.1 in
      (row, (known, (g.0.permissions, v))),
  λ g.
      let (a, granted_access, same) =
        Holds-access r users now user channel g.0 g.1.1.0 g.1.0 g.1.1.1 in
      (a, granted_access),
)

publish-Holds :
    (r : Replica) (users : ℕ → Option UserRow) (now user : ℕ) (channel : ℤ) (a : RoomAccess)
    → publish_access r users now user channel ≡ ok a
    → (can_publish a.permissions ≡ true) × (room_access r users now user channel ≡ ok a)
unfolding publish_access permissions_of
publish-Holds r users now user channel a h =
    let (b, entered, h1) = ok_bound (room_access r users now user channel) _ a h in
    let (x, publishes, h2) = ok_bound (require forbidden (can_publish b.permissions)) _ a h1 in
    (
      subst (λ k. can_publish k ≡ true) (ap permissions_of h2)
          (required forbidden (can_publish b.permissions) x publishes),
      entered ∙ h2,
    )

token-err :
    (r : Replica) (rooms : Rooms) (users : ℕ → Option UserRow) (now user : ℕ) (channel : ℤ)
    (publish : List PublicationSource) (e : AppError)
    → access_for r users now user channel publish ≡ err e
    → token r rooms users now user channel publish ≡ (rooms, err e)
unfolding token
token-err r rooms users now user channel publish e h = rw (h, token) refl

token-ok :
    (r : Replica) (rooms : Rooms) (users : ℕ → Option UserRow) (now user : ℕ) (channel : ℤ)
    (publish : List PublicationSource) (a : RoomAccess)
    → access_for r users now user channel publish ≡ ok a
    → token r rooms users now user channel publish
      ≡ claimed (claim_publications rooms (key_of channel) user publish)
unfolding token
token-ok r rooms users now user channel publish a h = rw (h, token) refl

Outcome-cases {ℓ} :
    {A : Type ℓ} (o : Outcome A) → ((a : A) × (o ≡ ok a)) ⊎ ((e : AppError) × (o ≡ err e))
Outcome-cases (ok a) = inl (a, refl)
Outcome-cases (err e) = inr (e, refl)

-- A publish token is given only to a known caller whom the replica, vouching for its answers, lets
-- join the channel and go live in it.
pub token-Holds :
    (r : Replica) (rooms : Rooms) (users : ℕ → Option UserRow) (now user : ℕ) (channel : ℤ)
    (source : PublicationSource) (publish : List PublicationSource)
    → (token r rooms users now user channel (source ∷ publish)).1 ≡ ok true
    → (row : UserRow) × ((users user ≡ some row)
        × ((p : ℕ) × (Holds r now row channel p × (can_publish p ≡ true))))
unfolding access_for
token-Holds r rooms users now user channel source publish h =
    elim (Outcome-cases (publish_access r users now user channel)) [
      | inr (e, refused) ↦
          let out = token-err r rooms users now user channel (source ∷ publish) e refused in cc
      | inl (a, entered) ↦
          let (publishes, inside) = publish-Holds r users now user channel a entered in
          let (row, known, v) = access-Holds r users now user channel a inside in
          (row, (known, (a.permissions, (v, publishes))))
    ]
