-- ===== src/Store/Outcome.antt =====
-- The errors of the store layer, and what a call returns.
use trailarr.Prelude.{Bool, true, false, Option, none, some}

-- ErrNotFound, ErrIndexOutOfRange (internal/bbolt.go writes the same text), ErrNoStoreClient, an
-- error that bbolt returns, an error of encoding/json, and a run time panic.
pub data Error : Type 0 where
  not_found index_out_of_range no_store_client bolt_failed bad_json panicked : Error

pub data Outcome {ℓ} (A : Type ℓ) : Type ℓ where
  ok : A → Outcome A
  err : Error → Outcome A

infixl 5 ◌>>=◌
abbrev pub ◌>>=◌ {ℓ κ} : {A : Type ℓ} {B : Type κ} → Outcome A → (A → Outcome B) → Outcome B
ok a >>= f = f a
err e >>= f = err e

-- `err == nil`
abbrev pub succeeded {ℓ} : {A : Type ℓ} → Outcome A → Bool
succeeded (ok a) = true
succeeded (err e) = false

-- `v, ok := m[k]; if !ok { return ErrNotFound }`
abbrev pub or_not_found {ℓ} : {A : Type ℓ} → Option A → Outcome A
or_not_found none = err not_found
or_not_found (some v) = ok v
