-- ===== src/Store/Hashes.antt =====
-- What the store promises of its hashes: an interface that both back ends fill.
pub mod Backends
use trailarr.Prelude.{
  ◌≡◌, Bool, true, false, ◌&&◌, Option, none, some, List, Bytes, ◌==◌, if◌then◌else◌,
}
use trailarr.Store.Outcome.{Outcome, ok, or_not_found}

-- `field s k f` is the value of the field `f` of the hash `k`.
pub record HashStore : Type 1 where
  pub State : Type 0
  pub field : State → Bytes → Bytes → Option Bytes
  pub KeyFits : Bytes → Type 0
  pub FieldFits : Bytes → Type 0
  pub ValueFits : Bytes → Type 0
  pub hset : State → Bytes → Bytes → Bytes → Outcome (Unit {0}) × State
  pub hget : State → Bytes → Bytes → Outcome Bytes
  pub hvals : State → Bytes → Outcome (List Bytes)
  pub hdel : State → Bytes → Bytes → Outcome (Unit {0}) × State

-- `r` returned nil, and its field `f` of `k` is `o`; all other fields are those of `s`.
pub record FieldSet (H : HashStore) (s : H.State) (k f : Bytes) (o : Option Bytes)
    (r : Outcome (Unit {0}) × H.State) : Type 0 where
  pub returned : r.0 ≡ ok tt
  pub fields : (j g : Bytes) → H.field r.1 j g ≡ (if (k == j) && (f == g) then o else H.field s j g)

pub record IsHashStore (H : HashStore) : Type 0 where
  pub hget_lem : (s : H.State) (k f : Bytes) → H.hget s k f ≡ or_not_found (H.field s k f)
  pub hset_lem :
      (s : H.State) (k f v : Bytes)
      → H.KeyFits k
      → H.FieldFits f
      → H.ValueFits v
      → FieldSet H s k f (some v) (H.hset s k f v)
  pub hdel_lem : (s : H.State) (k f : Bytes) → FieldSet H s k f none (H.hdel s k f)
