-- ===== src/Bbolt/Content.antt =====
-- Key and value pairs in byte order of the keys: the content of a bucket.
use trailarr.Prelude.{
  ◌≡◌, refl, Option, none, some, List, [], ◌∷◌, arith, Bytes, ◌==◌, ==_iff, bytes_ltb,
  if◌then◌else◌,
}

abbrev pub Pairs : Type 0
Pairs = List (Bytes × Bytes)

unfoldable pub lookup : Bytes → Pairs → Option Bytes
lookup k [] = none
lookup k ((j, w) ∷ r) = if j == k then some w else lookup k r

-- A put replaces the value of a key that is there, and else goes to its place in the order.
unfoldable pub put_sorted : Bytes → Bytes → Pairs → Pairs
put_sorted k v [] = (k, v) ∷ []
put_sorted k v ((j, w) ∷ r) =
    let rest = put_sorted k v r in
    if j == k then (k, v) ∷ r else (if bytes_ltb k j then (k, v) ∷ (j, w) ∷ r else (j, w) ∷ rest)

unfoldable pub remove : Bytes → Pairs → Pairs
remove k [] = []
remove k ((j, w) ∷ r) = let rest = remove k r in if j == k then rest else (j, w) ∷ rest

pub lookup-put_sorted :
    (k j v : Bytes) (r : Pairs)
    → lookup j (put_sorted k v r) ≡ (if k == j then some v else lookup j r)
unfolding lookup put_sorted
lookup-put_sorted k j v [] = refl
lookup-put_sorted k j v ((i, w) ∷ r) =
    ground (arith, ==_iff k j, ==_iff i k, ==_iff i j, lookup-put_sorted k j v r)

pub lookup-remove :
    (k j : Bytes) (r : Pairs) → lookup j (remove k r) ≡ (if k == j then none else lookup j r)
unfolding lookup remove
lookup-remove k j [] = ground arith
lookup-remove k j ((i, w) ∷ r) =
    ground (arith, ==_iff k j, ==_iff i k, ==_iff i j, lookup-remove k j r)
