-- ===== src/Replica/Grace.antt =====
-- When the replica stops vouching for admissions (`set_connected` and `staleness` of
-- crates/api/src/discord/replica.rs).
use ldktela.Base.{
  ℕ, ◌-◌, ◌≡◌, Bool, true, false, Option, none, some, List, [], ◌∷◌, leb, if◌then◌else◌,
}
use ldktela.Replica.{Replica, Staleness, fresh, stale}
use ldktela.Replica.Reach.{Call, connection_set}

-- The last report about the connection among some calls, if there is one.
unfoldable pub last_report : List Call → Option (Bool × ℕ) → Option (Bool × ℕ)
last_report [] known = known
last_report (connection_set up now ∷ cs) known = last_report cs (some (up, now))
last_report (_ ∷ cs) known = last_report cs known

-- What the replica knows of the connection.
record Knows (grace : ℕ) (r : Replica) (known : Option (Bool × ℕ)) : Type 0 where
  grace_kept : r.grace ≡ grace
  never : known ≡ none → (r.connected ≡ false) × (r.disconnected_since ≡ none)
  up : (t : ℕ) → known ≡ some (true, t) → r.connected ≡ true
  down : (t : ℕ) → known ≡ some (false, t) → (r.connected ≡ false) × (r.disconnected_since ≡ some t)

-- The answer that the last report gives: connected is fresh, disconnected is fresh for the grace
-- window after that report, and no report at all is stale.
unfoldable pub vouched : ℕ → ℕ → Option (Bool × ℕ) → Staleness
vouched grace now none = stale
vouched grace now (some (true, t)) = fresh
vouched grace now (some (false, t)) = if leb (now - t) grace then fresh else stale

-- Reports of a stage that is not "connected", one after another.
unfoldable pub reports_down : List ℕ → List Call
reports_down [] = []
reports_down (t ∷ ts) = connection_set false t ∷ reports_down ts
