-- ===== src/Domain/Discord.antt =====
-- crates/domain/src/discord.rs: what a member may do in a channel.
--
-- A `u64` mask is a number below 2 ^ 64 (`IsWord`); `&` and `|` are the native bit operations and
-- `!` is `complement 64`.
pub mod Bitwise
pub mod Resolution
pub mod Words
pub mod Order
pub mod Access
mod Tests
use Prim.Native.Nat.{bit_and, bit_or}
use ldktela.Base.{
  ℕ, ◌-◌, ◌^◌, ◌<◌, ◌≡◌, Bool, true, false, not, ◌&&◌, Option, none, some, List, [], ◌∷◌, ◌==◌, any,
  find?, keep_if, if◌then◌else◌,
}
use ldktela.Base.Bits.{complement}

abbrev pub administrator : ℕ
administrator = 2 ^ 3

abbrev pub stream : ℕ
stream = 2 ^ 9

abbrev pub view_channel : ℕ
view_channel = 2 ^ 10

abbrev pub connect : ℕ
connect = 2 ^ 20

-- `u64::MAX`
abbrev pub u64_max : ℕ
u64_max = 2 ^ 64 - 1

-- A value of type `u64`.
abbrev pub IsWord : ℕ → Type 0
IsWord a = a < 2 ^ 64

unfoldable pub contains : ℕ → ℕ → Bool
contains permissions bit = bit_and permissions bit == bit

unfoldable pub can_view : ℕ → Bool
unfolding contains
can_view permissions = contains permissions view_channel

unfoldable pub can_join_room : ℕ → Bool
unfolding can_view
can_join_room permissions = can_view permissions && contains permissions connect

unfoldable pub can_publish : ℕ → Bool
unfolding can_join_room
can_publish permissions = can_join_room permissions && contains permissions stream

pub record RoleRef : Type 0 where
  pub id : ℕ
  pub permissions : ℕ

pub record GuildRef : Type 0 where
  pub id : ℕ
  pub owner_id : ℕ
  pub roles : List RoleRef

pub record MemberRef : Type 0 where
  pub user_id : ℕ
  pub role_ids : List ℕ

pub data OverwriteKind : Type 0 where
  role member : OverwriteKind

pub record Overwrite : Type 0 where
  pub target_id : ℕ
  pub kind : OverwriteKind
  pub allow : ℕ
  pub deny : ℕ

pub record ChannelRef : Type 0 where
  pub id : ℕ
  pub overwrites : List Overwrite

abbrev pub is_role : OverwriteKind → Bool
is_role role = true
is_role member = false

-- Steps 2 and 3: the permissions of @everyone, then the union with the member's roles.
unfoldable pub everyone_permissions : GuildRef → ℕ
everyone_permissions guild = elim (find? (λ r. r.id == guild.id) guild.roles) [
  | none ↦ 0
  | some r ↦ r.permissions
]

unfoldable pub add_role : List RoleRef → ℕ → ℕ → ℕ
add_role roles base role_id = elim (find? (λ r. r.id == role_id) roles) [
  | none ↦ base
  | some r ↦ bit_or base r.permissions
]

unfoldable pub add_roles : List RoleRef → ℕ → List ℕ → ℕ
add_roles roles base [] = base
add_roles roles base (role_id ∷ ids) = add_roles roles (add_role roles base role_id) ids

-- `(base & !deny) | allow`
unfoldable pub apply_masks : ℕ → ℕ → ℕ → ℕ
apply_masks allow deny base = bit_or (bit_and base (complement 64 deny)) allow

unfoldable pub apply_overwrite : Option Overwrite → ℕ → ℕ
apply_overwrite none base = base
apply_overwrite (some ow) base = apply_masks ow.allow ow.deny base

-- The tests of the searches of steps 5 to 7.
unfoldable pub is_everyone : GuildRef → Overwrite → Bool
is_everyone guild o = is_role o.kind && o.target_id == guild.id

unfoldable pub is_member_role : GuildRef → MemberRef → Overwrite → Bool
is_member_role guild m o =
    is_role o.kind && not (o.target_id == guild.id) && any (λ id. id == o.target_id) m.role_ids

unfoldable pub is_member : MemberRef → Overwrite → Bool
is_member m o = not (is_role o.kind) && o.target_id == m.user_id

-- Step 6: the overwrites of the member's roles are accumulated.
unfoldable pub accumulate : (Overwrite → ℕ) → ℕ → List Overwrite → ℕ
accumulate mask acc [] = acc
accumulate mask acc (ow ∷ ows) = accumulate mask (bit_or acc (mask ow)) ows

-- Steps 2 and 3.
unfoldable pub base_permissions : GuildRef → MemberRef → ℕ
base_permissions guild m = add_roles guild.roles (everyone_permissions guild) m.role_ids

-- Steps 5 to 7.
unfoldable pub apply_channel : GuildRef → MemberRef → List Overwrite → ℕ → ℕ
apply_channel guild m overwrites base =
    let of_roles : List Overwrite = keep_if (is_member_role guild m) overwrites in
    apply_overwrite (find? (is_member m) overwrites) (
      apply_masks (accumulate (λ o. o.allow) 0 of_roles) (accumulate (λ o. o.deny) 0 of_roles)
        (apply_overwrite (find? (is_everyone guild) overwrites) base))

unfoldable pub resolve : GuildRef → MemberRef → ChannelRef → ℕ
resolve guild m channel =
    let base : ℕ = base_permissions guild m in
    if m.user_id == guild.owner_id
    then u64_max
    else if bit_and base administrator == administrator
    then u64_max
    else apply_channel guild m channel.overwrites base
