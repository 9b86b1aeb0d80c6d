-- ===== src/Announce.antt =====
-- The nickname tag of crates/bot/src/announce.rs: who may be renamed, and to what.
--
-- A string is the list of its characters, each a code point.
pub mod Tags
pub mod Rooms
pub mod Nickname
pub mod Restoring
pub mod Records
pub mod Snapshots
mod Tests
use ldktela.Base.{
  ℕ, ◌+◌, ◌-◌, Bool, true, false, ◌&&◌, ◌||◌, Option, none, some, List, [], ◌∷◌, ◌++◌, ◌==◌, ltb,
  leb, if◌then◌else◌,
}

abbrev pub Name : Type 0
Name = List ℕ

-- "[🔴LIVE] " and "[LIVE] ".
unfoldable pub prefix : Name
prefix = 0x5b ∷ 0x1f534 ∷ 0x4c ∷ 0x49 ∷ 0x56 ∷ 0x45 ∷ 0x5d ∷ 0x20 ∷ []

unfoldable pub legacy_prefix : Name
legacy_prefix = 0x5b ∷ 0x4c ∷ 0x49 ∷ 0x56 ∷ 0x45 ∷ 0x5d ∷ 0x20 ∷ []

unfoldable pub nick_limit : ℕ
nick_limit = 32

pub data RenameVerdict : Type 0 where
  allowed owner above_bot : RenameVerdict

unfoldable pub may_rename : ℕ → ℕ → ℕ → ℕ → RenameVerdict
may_rename target_id target_top_role bot_top_role owner_id =
    if target_id == owner_id
    then owner
    else if leb bot_top_role target_top_role
    then above_bot
    else allowed

-- `char::len_utf16` and `encode_utf16().count()`.
unfoldable pub len_utf16 : ℕ → ℕ
len_utf16 c = if ltb c 0x10000 then 1 else 2

unfoldable pub count_utf16 : Name → ℕ
count_utf16 [] = 0
count_utf16 (c ∷ cs) = len_utf16 c + count_utf16 cs

unfoldable pub starts_with : Name → Name → Bool
starts_with [] cs = true
starts_with (p ∷ ps) [] = false
starts_with (p ∷ ps) (c ∷ cs) = c == p && starts_with ps cs

-- The characters that `take_while` passes, `used` units being spent.
unfoldable pub take_room : ℕ → ℕ → Name → Name
take_room room used [] = []
take_room room used (c ∷ cs) =
    let rest = take_room room (used + len_utf16 c) cs in
    if leb (used + len_utf16 c) room then c ∷ rest else []

unfoldable pub is_tagged : Name → Bool
is_tagged base = starts_with prefix base || starts_with legacy_prefix base

unfoldable pub base_name : Option Name → Name → Name
base_name none username = username
base_name (some nick) username = nick

unfoldable pub tagged_nickname : Option Name → Name → Option Name
tagged_nickname current username =
    let base = base_name current username in
    let room = nick_limit - count_utf16 prefix in
    if is_tagged base then none else some (prefix ++ take_room room 0 base)
