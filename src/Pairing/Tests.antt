-- ===== src/Pairing/Tests.antt =====
-- Pairing codes at concrete inputs.
use ldktela.Base.{◌≡◌, refl, none, some, List, [], ◌∷◌, arith}
use ldktela.Pairing.{PairingRow, consume, returned, consumable}
use ldktela.Pairing.Codes.{consume-again}

abbrev issued : List PairingRow
issued =
    record {
      code_hash = 11;
      discord_user_id = 70;
      discord_guild_id = 100;
      created_at = 0;
      expires_at = 300;
      consumed_at = none;
    }
    ∷ record {
      code_hash = 12;
      discord_user_id = 71;
      discord_guild_id = 100;
      created_at = 0;
      expires_at = 20;
      consumed_at = none;
    }
    ∷ []

-- The first presentation works.
first_use :
    (consume issued 11 50).1 ≡ some (record { discord_user_id = 70; discord_guild_id = 100 })
unfolding consume returned consumable
first_use = refl

consume-again_example : (consume (consume issued 11 50).0 11 60).1 ≡ none
consume-again_example = consume-again issued 11 50 60 (omega arith)
