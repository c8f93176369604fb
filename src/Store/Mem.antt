-- ===== src/Store/Mem.antt =====
-- memBolt of internal/redis.go. A missing key of a Go map reads as the empty list; values are
-- copied on the way in and out, so that no caller shares memory with the store.
pub mod Lists
use trailarr.Prelude.{
  ℕ, ◌+◌, ◌-◌, true, false, ◌&&◌, ◌||◌, not, Option, none, some, List, [], ◌∷◌, ◌++◌, map, length,
  set, Bytes, ◌==◌, eqb, if◌then◌else◌,
}
use trailarr.Prelude.Int.{ℤ, pos, pos_part, ltb_ℤ}
use trailarr.Prelude.Maps.{GoMap, find, erase, insert}
use trailarr.Store.Outcome.{Outcome, ok, err, not_found, index_out_of_range, panicked, or_not_found}
use trailarr.Store.Range.{normalize_range, range_bounds, copy_loop}

pub record Mem : Type 0 where
  pub kv : GoMap Bytes
  pub hashes : GoMap (GoMap Bytes)
  pub lists : GoMap (List Bytes)

unfoldable pub new_mem : Mem
new_mem = record { kv = []; hashes = []; lists = [] }

abbrev pub or_nil {ℓ} : {A : Type ℓ} → Option (List A) → List A
or_nil none = []
or_nil (some vs) = vs

abbrev pub or_panic : Option (List Bytes) → Outcome (List Bytes)
or_panic none = err panicked
or_panic (some vs) = ok vs

unfoldable pub kv_set : Mem → Bytes → Bytes → Outcome (Unit {0}) × Mem
kv_set m key value = (ok tt, record m { kv = insert key value m.kv })

unfoldable pub kv_get : Mem → Bytes → Outcome Bytes
kv_get m key = or_not_found (find key m.kv)

unfoldable pub del : Mem → Bytes → Outcome (Unit {0}) × Mem
del m key =
    (ok tt, record { kv = erase key m.kv; hashes = erase key m.hashes; lists = erase key m.lists })

unfoldable pub hset : Mem → Bytes → Bytes → Bytes → Outcome (Unit {0}) × Mem
hset m key field value = (
  ok tt,
  record m { hashes = insert key (insert field value (or_nil (find key m.hashes))) m.hashes },
)

unfoldable pub hget : Mem → Bytes → Bytes → Outcome Bytes
hget m key field = elim (find key m.hashes) [
  | none ↦ err not_found
  | some h ↦ or_not_found (find field h)
]

unfoldable pub hvals : Mem → Bytes → Outcome (List Bytes)
hvals m key = ok (map (λ kv. kv.1) (or_nil (find key m.hashes)))

-- A hash that has become empty is dropped.
abbrev pub keep_hash : Bytes → GoMap Bytes → GoMap (GoMap Bytes) → GoMap (GoMap Bytes)
keep_hash key [] hs = erase key hs
keep_hash key (kv ∷ h) hs = insert key (kv ∷ h) hs

unfoldable pub hdel : Mem → Bytes → Bytes → Outcome (Unit {0}) × Mem
hdel m key field = (
  ok tt,
  elim (find key m.hashes) [
    | none ↦ m
    | some h ↦ record m { hashes = keep_hash key (erase field h) m.hashes }
  ],
)

abbrev pub list_at : Mem → Bytes → List Bytes
list_at m key = or_nil (find key m.lists)

unfoldable pub rpush : Mem → Bytes → Bytes → Outcome (Unit {0}) × Mem
rpush m key value = (ok tt, record m { lists = insert key (list_at m key ++ value ∷ []) m.lists })

unfoldable pub lrange : Mem → Bytes → ℤ → ℤ → Outcome (List Bytes)
lrange m key start stop = elim (range_bounds (length (list_at m key)) start stop) [
  | none ↦ ok []
  | some (s, e) ↦ or_panic (copy_loop (list_at m key) s (e + 1 - s))
]

abbrev store_copy : Mem → Bytes → Option (List Bytes) → Outcome (Unit {0}) × Mem
store_copy m key none = (err panicked, m)
store_copy m key (some vs) = (ok tt, record m { lists = insert key vs m.lists })

-- The tests of LTrim are those of normalizeRange; both kinds of empty range drop the list.
unfoldable pub ltrim : Mem → Bytes → ℤ → ℤ → Outcome (Unit {0}) × Mem
ltrim m key start stop = elim (normalize_range (length (list_at m key)) start stop) [
  | none ↦ (ok tt, record m { lists = erase key m.lists })
  | some (s, e) ↦ store_copy m key (copy_loop (list_at m key) s (e + 1 - s))
]

unfoldable pub lset : Mem → Bytes → ℤ → Bytes → Outcome (Unit {0}) × Mem
lset m key index value =
    let vals = list_at m key in
    if ltb_ℤ index (pos 0) || not (ltb_ℤ index (pos (length vals)))
    then (err index_out_of_range, m)
    else (ok tt, record m { lists = insert key (set vals (pos_part index) value) m.lists })

-- The loop of LRem, with `removed` matches behind it.
unfoldable pub remove_loop : ℕ → ℤ → Bytes → List Bytes → List Bytes
remove_loop removed count target [] = []
remove_loop removed count target (v ∷ vs) = elim (ltb_ℤ (pos removed) count && v == target) [
  | true ↦ remove_loop (removed + 1) count target vs
  | false ↦ v ∷ remove_loop removed count target vs
]

abbrev pub keep_list : Mem → Bytes → List Bytes → Mem
keep_list m key [] = record m { lists = erase key m.lists }
keep_list m key (v ∷ vs) = record m { lists = insert key (v ∷ vs) m.lists }

unfoldable pub lrem : Mem → Bytes → ℤ → Bytes → Outcome (Unit {0}) × Mem
unfolding remove_loop
lrem m key count value =
    if eqb (length (list_at m key)) 0
    then (ok tt, m)
    else (ok tt, keep_list m key (remove_loop 0 count value (list_at m key)))
