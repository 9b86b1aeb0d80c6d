-- ===== src/Gateway/Connection/Version.antt =====
-- The version of a client, for `check_client_version` of crates/api/src/gateway/mod.rs. A string is
-- the list of its characters.
use ldktela.Base.{
  ◌>>=◌, ℕ, ◌^◌, Bool, false, ◌&&◌, ◌||◌, Option, none, some, List, [], ◌∷◌, ◌==◌, leb, ltb,
  if◌then◌else◌,
}
use ldktela.Base.Decimal.{parse_nat}

pub record ClientInfo : Type 0 where
  pub version : List ℕ

-- The characters before the first `-` or `+`.
unfoldable pub core : List ℕ → List ℕ
core [] = []
core (c ∷ cs) = let rest = core cs in if c == 0x2d || c == 0x2b then [] else c ∷ rest

-- `split('.')`: the first part, and the parts after it.
unfoldable pub split_dots : List ℕ → List ℕ × List (List ℕ)
split_dots [] = ([], [])
split_dots (c ∷ cs) =
    let rest = split_dots cs in if c == 0x2e then ([], rest.0 ∷ rest.1) else (c ∷ rest.0, rest.1)

-- `str::parse::<u32>`; a sign was cut off before.
unfoldable pub parse_u32 : List ℕ → Option ℕ
parse_u32 digits = parse_nat (2 ^ 32) digits

abbrev pub Version : Type 0
Version = ℕ × ℕ × ℕ

unfoldable pub parse_parts : List ℕ → List (List ℕ) → Option Version
parse_parts first (second ∷ []) = do
  major ← parse_u32 first
  minor ← parse_u32 second
  some (major, minor, 0)
parse_parts first (second ∷ third ∷ []) = do
  major ← parse_u32 first
  minor ← parse_u32 second
  patch ← parse_u32 third
  some (major, minor, patch)
parse_parts first _ = none

unfoldable pub parse_version : List ℕ → Option Version
parse_version raw = let parts = split_dots (core raw) in parse_parts parts.0 parts.1

-- The order of tuples: the first part that differs decides.
unfoldable pub at_least : Version → Version → Bool
at_least (a, b, c) (x, y, z) = ltb x a || (x == a && (ltb y b || (y == b && leb z c)))

unfoldable pub min_client_version : Version
min_client_version = (2, 0, 0)

unfoldable pub check_client_version : ClientInfo → Bool
check_client_version client = elim (parse_version client.version) [
  | none ↦ false
  | some version ↦ at_least version min_client_version
]
