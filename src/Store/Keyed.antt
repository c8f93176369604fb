-- ===== src/Store/Keyed.antt =====
-- What the store promises of its plain values: an interface for the components above it.
use trailarr.Prelude.{◌≡◌, Bytes, ◌==◌, if◌then◌else◌}
use trailarr.Store.Outcome.{Outcome, ok, err, not_found}

pub record KeyedStore : Type 1 where
  pub State : Type 0
  pub IsValid : State → Type 0
  pub KeyFits : Bytes → Type 0
  pub ValueFits : Bytes → Type 0
  pub get : State → Bytes → Outcome Bytes
  pub set : State → Bytes → Bytes → Outcome (Unit {0}) × State
  pub del : State → Bytes → Outcome (Unit {0}) × State

-- `r` returned nil and left a valid state in which Get answers `a` for `k`, and for every other key
-- what it answered before.
pub record Answers (K : KeyedStore) (s : K.State) (k : Bytes) (a : Outcome Bytes)
    (r : Outcome (Unit {0}) × K.State) : Type 0 where
  pub returned : r.0 ≡ ok tt
  pub valid : K.IsValid r.1
  pub values : (j : Bytes) → K.get r.1 j ≡ (if k == j then a else K.get s j)

pub record IsKeyedStore (K : KeyedStore) : Type 0 where
  pub set_lem :
      (s : K.State) (k v : Bytes)
      → K.IsValid s
      → K.KeyFits k
      → K.ValueFits v
      → Answers K s k (ok v) (K.set s k v)
  pub del_lem : (s : K.State) (k : Bytes) → K.IsValid s → Answers K s k (err not_found) (K.del s k)
