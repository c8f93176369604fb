-- ===== src/Slices/Unique.antt =====
-- What DeduplicateByKey keeps of a list, key by key, told with Filter.
use trailarr.Prelude.{
  ◌≡◌, refl, Bool, true, List, [], ◌∷◌, Bytes, ◌==◌, ==_iff, arith, if◌then◌else◌, map, take,
}
use trailarr.Prelude.Maps.{GoMap, find, insert, find-insert}
use trailarr.Slices.{filter, filter_map, value_at, is_seen, unique_loop, deduplicate_by_key}

-- The items whose value under `key` is `k`, in order.
unfoldable pub with_value : Bytes → Bytes → List (GoMap Bytes) → List (GoMap Bytes)
with_value key k list = filter list (λ item. value_at key item == k)

is_seen-insert :
    (seen : GoMap Bool) (j k : Bytes)
    → is_seen (insert j true seen) k ≡ (if j == k then true else is_seen seen k)
unfolding is_seen
is_seen-insert seen j k = ground (arith, find-insert j k true seen)

-- Of a value already seen nothing is kept, of another one the first item.
unique_loop_lem :
    (seen : GoMap Bool) (key k : Bytes) (list : List (GoMap Bytes))
    → with_value key k (unique_loop seen key list)
      ≡ (if is_seen seen k then [] else take 1 (with_value key k list))
unfolding unique_loop filter with_value
unique_loop_lem seen key k [] = ground arith
unique_loop_lem seen key k (item ∷ list) = ground (
  arith,
  ==_iff (value_at key item) k,
  is_seen-insert seen (value_at key item) k,
  unique_loop_lem seen key k list,
  unique_loop_lem (insert (value_at key item) true seen) key k list,
)

-- For each value `k` of the key, DeduplicateByKey keeps of the items with that value exactly the
-- first, and none if there is none; an item without the key counts as one with the empty value.
pub deduplicate_by_key-first :
    (list : List (GoMap Bytes)) (key k : Bytes)
    → with_value key k (deduplicate_by_key list key) ≡ take 1 (with_value key k list)
unfolding deduplicate_by_key is_seen find
deduplicate_by_key-first list key k = unique_loop_lem [] key k list

-- FilterMap keeps what Filter keeps and maps it.
pub filter_map_lem {ℓ κ} :
    {T : Type ℓ} {U : Type κ} (input : List T) (keep : T → Bool) (mapper : T → U)
    → filter_map input keep mapper ≡ map mapper (filter input keep)
unfolding filter_map filter
filter_map_lem [] keep mapper = refl
filter_map_lem (v ∷ input) keep mapper = ground (arith, filter_map_lem input keep mapper)
