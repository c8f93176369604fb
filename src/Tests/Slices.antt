-- ===== src/Tests/Slices.antt =====
-- Runs of DeduplicateByKey.
use trailarr.Prelude.{◌≡◌, refl, List, [], ◌∷◌, Bytes, bytes, ◌==◌}
use trailarr.Prelude.Maps.{GoMap, find, insert}
use trailarr.Slices.{deduplicate_by_key, unique_loop, is_seen, value_at}

abbrev id : Bytes
id = bytes "id"

abbrev found : List (GoMap Bytes)
found =
    ((id, bytes "a") ∷ (bytes "n", bytes "1") ∷ [])
    ∷ ((id, bytes "b") ∷ [])
    ∷ ((id, bytes "a") ∷ (bytes "n", bytes "2") ∷ [])
    ∷ []

found_unique :
    deduplicate_by_key found id
    ≡ (((id, bytes "a") ∷ (bytes "n", bytes "1") ∷ []) ∷ ((id, bytes "b") ∷ []) ∷ [])
unfolding deduplicate_by_key unique_loop is_seen find insert ◌==◌ value_at
found_unique = refl
