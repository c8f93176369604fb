-- ===== src/Store/Spec.antt =====
-- What the store promises of its lists: an interface that both back ends fill and that the
-- components above the store take as a parameter.
use trailarr.Prelude.{
  ℕ, zero, suc, ◌≤◌, ◌<◌, ◌^◌, ◌≡◌, true, false, List, [], ◌∷◌, ◌++◌, length, set, Bytes, ◌==◌,
  if◌then◌else◌,
}
use trailarr.Prelude.Int.{ℤ, pos, negsuc}
use trailarr.Store.Outcome.{Outcome, ok, err, index_out_of_range}
use trailarr.Store.Range.{slice}

-- The reference for LREM: at most `count` occurrences go, from the front.
unfoldable pub remove_first : ℕ → Bytes → List Bytes → List Bytes
remove_first count target [] = []
remove_first zero target (v ∷ vs) = v ∷ vs
remove_first (suc c) target (v ∷ vs) = elim (v == target) [
  | true ↦ remove_first c target vs
  | false ↦ v ∷ remove_first (suc c) target vs
]

-- A count of zero or less removes nothing.
unfoldable pub remove_count : ℤ → Bytes → List Bytes → List Bytes
remove_count (pos c) target vs = remove_first c target vs
remove_count (negsuc c) target vs = vs

-- `Room s k n`: `n` more entries can be pushed to the list `k`.
pub record ListStore : Type 1 where
  pub State : Type 0
  pub view : State → Bytes → List Bytes
  pub IsValid : State → Type 0
  pub KeyFits : Bytes → Type 0
  pub ValueFits : Bytes → Type 0
  pub Room : State → Bytes → ℕ → Type 0
  pub lrange : State → Bytes → ℤ → ℤ → Outcome (List Bytes)
  pub rpush : State → Bytes → Bytes → Outcome (Unit {0}) × State
  pub ltrim : State → Bytes → ℤ → ℤ → Outcome (Unit {0}) × State
  pub lset : State → Bytes → ℤ → Bytes → Outcome (Unit {0}) × State
  pub lrem : State → Bytes → ℤ → Bytes → Outcome (Unit {0}) × State
  pub del : State → Bytes → Outcome (Unit {0}) × State

-- `r` returned nil and left a valid state whose list `k` is `vs` and whose other lists are those of
-- `s`.
pub record Replaced (S : ListStore) (s : S.State) (k : Bytes) (vs : List Bytes)
    (r : Outcome (Unit {0}) × S.State) : Type 0 where
  pub returned : r.0 ≡ ok tt
  pub valid : S.IsValid r.1
  pub views : (j : Bytes) → S.view r.1 j ≡ (if k == j then vs else S.view s j)

-- The promise, in one law for each call.
pub record IsListStore (S : ListStore) : Type 0 where
  pub lrange_lem :
      (s : S.State) (k : Bytes) (a b : ℤ)
      → S.IsValid s
      → S.lrange s k a b ≡ ok (slice (S.view s k) a b)
  pub rpush_lem :
      (s : S.State) (k v : Bytes)
      → S.IsValid s
      → S.KeyFits k
      → S.ValueFits v
      → S.Room s k 1
      → Replaced S s k (S.view s k ++ v ∷ []) (S.rpush s k v)
  pub ltrim_lem :
      (s : S.State) (k : Bytes) (a b : ℤ)
      → S.IsValid s
      → Replaced S s k (slice (S.view s k) a b) (S.ltrim s k a b)
  pub lset_lem :
      (s : S.State) (k : Bytes) (i : ℕ) (v : Bytes)
      → S.IsValid s
      → S.ValueFits v
      → i < length (S.view s k)
      → Replaced S s k (set (S.view s k) i v) (S.lset s k (pos i) v)
  pub lset_above :
      (s : S.State) (k : Bytes) (i : ℕ) (v : Bytes)
      → S.IsValid s
      → length (S.view s k) ≤ i
      → S.lset s k (pos i) v ≡ (err index_out_of_range, s)
  pub lset_negative :
      (s : S.State) (k : Bytes) (i : ℕ) (v : Bytes)
      → S.IsValid s
      → S.lset s k (negsuc i) v ≡ (err index_out_of_range, s)
  pub lrem_lem :
      (s : S.State) (k : Bytes) (c : ℤ) (v : Bytes)
      → S.IsValid s
      → S.KeyFits k
      → Replaced S s k (remove_count c v (S.view s k)) (S.lrem s k c v)
  pub del_lem : (s : S.State) (k : Bytes) → S.IsValid s → Replaced S s k [] (S.del s k)
  -- A push uses up one place, and a deleted list has room for 2^64 - 1 entries.
  pub Room-rpush :
      (s : S.State) (k v : Bytes) (n : ℕ)
      → S.IsValid s
      → S.KeyFits k
      → S.ValueFits v
      → S.Room s k (suc n)
      → S.Room (S.rpush s k v).1 k n
  pub Room-suc : (s : S.State) (k : Bytes) (n : ℕ) → S.Room s k (suc n) → S.Room s k 1
  pub Room-del :
      (s : S.State) (k : Bytes) (n : ℕ) → S.IsValid s → n < 2 ^ 64 → S.Room (S.del s k).1 k n
