-- ===== src/Pairing.antt =====
-- Pairing codes: crates/db/src/repo/pairing.rs, crates/domain/src/pairing.rs and the shape check of
-- crates/domain/src/validation.rs.
--
-- A query is atomic; hashes are numbers, compared and never computed. A code is the list of its code
-- points: every byte of a character outside ASCII is outside the alphabet too, so the check on bytes is
-- one on code points. The random source is a parameter, the indices that it drew.
pub mod Codes
mod Tests
use ldktela.Base.{
  ℕ, ◌-◌, Bool, true, false, not, ◌&&◌, ◌||◌, Option, none, some, List, [], ◌∷◌, length, map, all,
  any, keep_if, ltb, ◌==◌, if◌then◌else◌,
}

pub record PairingRow : Type 0 where
  pub code_hash : ℕ
  pub discord_user_id : ℕ
  pub discord_guild_id : ℕ
  pub created_at : ℕ
  pub expires_at : ℕ
  pub consumed_at : Option ℕ

pub record ConsumedCode : Type 0 where
  pub discord_user_id : ℕ
  pub discord_guild_id : ℕ

abbrev pub is_none {ℓ} : {A : Type ℓ} → Option A → Bool
is_none none = true
is_none (some a) = false

-- The unique hash refuses a second row of a code: the query is then an error.
unfoldable pub insert : List PairingRow → ℕ → ℕ → ℕ → ℕ → ℕ → Option (List PairingRow)
insert rows code_hash user guild expires_at now =
    if any (λ r. r.code_hash == code_hash) rows
    then none
    else some (
        record {
          code_hash = code_hash;
          discord_user_id = user;
          discord_guild_id = guild;
          created_at = now;
          expires_at = expires_at;
          consumed_at = none;
        }
        ∷ rows)

-- `WHERE code_hash = $1 AND consumed_at IS NULL AND expires_at > $2`
unfoldable pub consumable : ℕ → ℕ → PairingRow → Bool
consumable code_hash now r =
    r.code_hash == code_hash && is_none r.consumed_at && ltb now r.expires_at

unfoldable pub consume_rows : List PairingRow → ℕ → ℕ → List PairingRow
consume_rows [] code_hash now = []
consume_rows (r ∷ rows) code_hash now =
    let rest : List PairingRow = consume_rows rows code_hash now in
    if consumable code_hash now r then record r { consumed_at = some now } ∷ rest else r ∷ rest

unfoldable pub returned : List PairingRow → ℕ → ℕ → Option ConsumedCode
returned [] code_hash now = none
returned (r ∷ rows) code_hash now =
    let rest : Option ConsumedCode = returned rows code_hash now in
    if consumable code_hash now r
    then some
        (record { discord_user_id = r.discord_user_id; discord_guild_id = r.discord_guild_id })
    else rest

unfoldable pub consume : List PairingRow → ℕ → ℕ → List PairingRow × Option ConsumedCode
consume rows code_hash now = (consume_rows rows code_hash now, returned rows code_hash now)

unfoldable pub recent_request_count : List PairingRow → ℕ → ℕ → ℕ
recent_request_count rows user since =
    length (keep_if (λ r. r.discord_user_id == user && ltb since r.created_at) rows)

unfoldable pub delete_expired : List PairingRow → ℕ → List PairingRow
delete_expired rows now =
    keep_if (λ r. not (ltb r.expires_at now || not (is_none r.consumed_at))) rows

abbrev pub pairing_code_len : ℕ
pairing_code_len = 8

-- ABCDEFGHJKMNPQRSTUVWXYZ23456789
abbrev pub pairing_code_alphabet : List ℕ
pairing_code_alphabet =
    65 ∷ 66 ∷ 67 ∷ 68 ∷ 69 ∷ 70 ∷ 71 ∷ 72 ∷ 74 ∷ 75 ∷ 77 ∷ 78 ∷ 80 ∷ 81 ∷ 82 ∷ 83 ∷ 84 ∷ 85 ∷ 86
    ∷ 87 ∷ 88 ∷ 89 ∷ 90 ∷ 50 ∷ 51 ∷ 52 ∷ 53 ∷ 54 ∷ 55 ∷ 56 ∷ 57 ∷ []

pub data ValidationCode : Type 0 where
  required too_short too_long invalid_format : ValidationCode

-- The error, if there is one.
unfoldable pub pairing_code : List ℕ → Option ValidationCode
pairing_code [] = some required
pairing_code (c ∷ cs) =
    if ltb (length (c ∷ cs)) pairing_code_len
    then some too_short
    else if ltb pairing_code_len (length (c ∷ cs))
    then some too_long
    else if not (all (λ b. any (λ a. a == b) pairing_code_alphabet) (c ∷ cs))
    then some invalid_format
    else none

-- `PAIRING_CODE_ALPHABET[i]`; the drawn indices are below its length.
unfoldable pub symbol_at : List ℕ → ℕ → ℕ
symbol_at [] i = 0
symbol_at (a ∷ symbols) i = if i == 0 then a else symbol_at symbols (i - 1)

unfoldable pub generate : List ℕ → List ℕ
generate drawn = map (symbol_at pairing_code_alphabet) drawn
