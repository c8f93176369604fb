-- ===== src/Slices.antt =====
-- The generic slice functions of internal/sliceutil.go, and DeduplicateByKey of
-- internal/youtube.go.
pub mod Unique
pub mod Filtered
use trailarr.Prelude.{Bool, true, false, List, [], ◌∷◌, Option, none, some, Bytes, if◌then◌else◌}
use trailarr.Prelude.Maps.{GoMap, find, insert}

-- Filter
unfoldable pub filter {ℓ} : {T : Type ℓ} → List T → (T → Bool) → List T
filter [] keep = []
filter (v ∷ input) keep = let rest = filter input keep in if keep v then v ∷ rest else rest

-- FilterMap
unfoldable pub filter_map {ℓ κ} : {T : Type ℓ} {U : Type κ} → List T → (T → Bool) → (T → U) → List U
filter_map [] keep mapper = []
filter_map (v ∷ input) keep mapper =
    let rest = filter_map input keep mapper in if keep v then mapper v ∷ rest else rest

-- item[key]: a missing key reads as the empty string.
unfoldable pub value_at : Bytes → GoMap Bytes → Bytes
value_at key item = elim (find key item) [ none ↦ [] | some k ↦ k ]

-- seen[k]: a missing key reads as false.
unfoldable pub is_seen : GoMap Bool → Bytes → Bool
is_seen seen k = elim (find k seen) [ none ↦ false | some b ↦ b ]

unfoldable pub unique_loop : GoMap Bool → Bytes → List (GoMap Bytes) → List (GoMap Bytes)
unique_loop seen key [] = []
unique_loop seen key (item ∷ list) =
    let k = value_at key item in
    let rest = unique_loop seen key list in
    let marked = unique_loop (insert k true seen) key list in
    if is_seen seen k then rest else item ∷ marked

-- DeduplicateByKey
unfoldable pub deduplicate_by_key : List (GoMap Bytes) → Bytes → List (GoMap Bytes)
deduplicate_by_key list key = unique_loop [] key list
