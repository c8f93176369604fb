-- ===== src/Store/Bolt/Entries.antt =====
-- The entries of a list bucket: keys are sequence numbers that ascend and end at the sequence.
use trailarr.Prelude.{
  ℕ, zero, suc, ◌+◌, ◌-◌, ◌^◌, ◌≤◌, ◌<◌, ◌≡◌, refl, ap, sym, false, ◌||◌, some, [], ◌∷◌, ◌++◌,
  arith, length, get_elem?, set, take, drop, take-nil, Bytes, ◌==◌, ==_refl, bytes_ltb, ltb,
  if◌then◌else◌,
}
use trailarr.Bbolt.{max_value_size}
use trailarr.Bbolt.Content.{Pairs, put_sorted, remove}
use trailarr.Store.Keys.{u64_to_bytes, u64_to_bytes_mono, ltb-ne, ltb-ne', ltb_asym}
use trailarr.Store.Range.{cut}

abbrev pub Keyed : ℕ → ℕ → Pairs → Type 0
Keyed lo hi [] = lo ≤ hi
Keyed lo hi ((k, v) ∷ r) =
    (q : ℕ) × (k ≡ u64_to_bytes q) × (lo < q) × (length v ≤ max_value_size) × Keyed q hi r

Keyed-le : (lo hi : ℕ) (r : Pairs) → Keyed lo hi r → lo ≤ hi
Keyed-le lo hi [] h = h
Keyed-le lo hi ((k, v) ∷ r) (q, e, l, z, h) = omega (arith, Keyed-le q hi r h)

pub Keyed-weaken : (lo' lo hi : ℕ) (r : Pairs) → lo' ≤ lo → Keyed lo hi r → Keyed lo' hi r
Keyed-weaken lo' lo hi [] l h = omega arith
Keyed-weaken lo' lo hi ((k, v) ∷ r) l (q, e, m, z, h) = (q, e, omega arith, z, h)

-- Ascending keys bound the number of entries.
pub length-Keyed : (lo hi : ℕ) (r : Pairs) → Keyed lo hi r → lo + length r ≤ hi
length-Keyed lo hi [] h = omega arith
length-Keyed lo hi ((k, v) ∷ r) (q, e, l, z, h) = omega (arith, length-Keyed q hi r h)

-- A put at the next sequence number goes to the end.
pub put_sorted-next :
    (lo hi : ℕ) (v : Bytes) (r : Pairs)
    → hi + 1 < 2 ^ 64
    → Keyed lo hi r
    → put_sorted (u64_to_bytes (hi + 1)) v r ≡ r ++ (u64_to_bytes (hi + 1), v) ∷ []
unfolding put_sorted
put_sorted-next lo hi v [] b h = refl
put_sorted-next lo hi v ((k, w) ∷ r) b (q, e, l, z, h) =
    let less = u64_to_bytes_mono q (hi + 1) (omega (arith, Keyed-le q hi r h)) b in
    rw e (
      rw
        (
          ltb-ne (u64_to_bytes q) (u64_to_bytes (hi + 1)) less,
          ltb_asym (u64_to_bytes q) (u64_to_bytes (hi + 1)) less,
        )
        (ap (◌∷◌ (u64_to_bytes q, w)) (put_sorted-next q hi v r b h)))

pub Keyed-append :
    (lo hi : ℕ) (v : Bytes) (r : Pairs)
    → length v ≤ max_value_size
    → Keyed lo hi r
    → Keyed lo (hi + 1) (r ++ (u64_to_bytes (hi + 1), v) ∷ [])
Keyed-append lo hi v [] fits h = (hi + 1, refl, omega arith, fits, omega arith)
Keyed-append lo hi v ((k, w) ∷ r) fits (q, e, l, z, h) = (q, e, l, z, Keyed-append q hi v r fits h)

-- The number of the key in the middle of a bucket, above those on its left.
Keyed-middle :
    (lo hi : ℕ) (kept : Pairs) (k v : Bytes) (r : Pairs)
    → Keyed lo hi (kept ++ (k, v) ∷ r)
    → (q : ℕ) × (k ≡ u64_to_bytes q) × (lo < q) × (length v ≤ max_value_size) × Keyed q hi r
Keyed-middle lo hi [] k v r h = h
Keyed-middle lo hi ((j, w) ∷ kept) k v r (p, e, l, z, h) =
    let (q, f, m, y, g) = Keyed-middle p hi kept k v r h in (q, f, omega arith, y, g)

remove-above :
    (k : Bytes) (q p hi : ℕ) (r : Pairs)
    → k ≡ u64_to_bytes q
    → hi < 2 ^ 64
    → q ≤ p
    → Keyed p hi r
    → remove k r ≡ r
unfolding remove
remove-above k q p hi [] f b m h = refl
remove-above k q p hi ((j, w) ∷ r) f b m (n, e, l, z, h) =
    let less = u64_to_bytes_mono q n (omega arith) (omega (arith, Keyed-le n hi r h)) in
    let ne : (j == k) ≡ false = rw (e, f) (ltb-ne' (u64_to_bytes q) (u64_to_bytes n) less) in
    rw (ne, remove-above k q n hi r f b (omega arith) h)

-- Removing a key takes out its own entry and nothing else.
pub remove-middle :
    (lo hi : ℕ) (kept : Pairs) (k v : Bytes) (r : Pairs)
    → hi < 2 ^ 64
    → Keyed lo hi (kept ++ (k, v) ∷ r)
    → remove k (kept ++ (k, v) ∷ r) ≡ kept ++ r
unfolding remove
remove-middle lo hi [] k v r b (q, f, m, z, g) =
    rw (==_refl k) (remove-above k q q hi r f b (omega arith) g)
remove-middle lo hi ((j, w) ∷ kept) k v r b (p, e, l, z, h) =
    let (q, f, m, _, g) = Keyed-middle p hi kept k v r h in
    let less = u64_to_bytes_mono p q m (omega (arith, Keyed-le q hi r g)) in
    let ne : (j == k) ≡ false = rw (e, f) (ltb-ne (u64_to_bytes p) (u64_to_bytes q) less) in
    rw (ne, remove-middle p hi kept k v r b h)

pub Keyed-remove :
    (lo hi : ℕ) (kept : Pairs) (k v : Bytes) (r : Pairs)
    → Keyed lo hi (kept ++ (k, v) ∷ r)
    → Keyed lo hi (kept ++ r)
Keyed-remove lo hi [] k v r (q, f, m, z, g) = Keyed-weaken lo q hi r (omega arith) g
Keyed-remove lo hi ((j, w) ∷ kept) k v r (p, e, l, z, h) =
    (p, e, l, z, Keyed-remove p hi kept k v r h)

-- Where an entry is read, its key has a number in the range.
pub Keyed-get_elem? :
    (lo hi : ℕ) (r : Pairs) (i : ℕ) (k w : Bytes)
    → Keyed lo hi r
    → get_elem? r i ≡ some (k, w)
    → (q : ℕ) × (k ≡ u64_to_bytes q) × (lo < q) × (q ≤ hi)
Keyed-get_elem? lo hi [] i k w h g = cc
Keyed-get_elem? lo hi ((j, v) ∷ r) zero k w (q, e, l, z, h) g =
    (q, cc, l, omega (arith, Keyed-le q hi r h))
Keyed-get_elem? lo hi ((j, v) ∷ r) (suc i) k w (p, e, l, z, h) g =
    let (q, f, m, n) = Keyed-get_elem? p hi r i k w h g in (q, f, omega arith, n)

-- A put at a key that is there replaces its value in place.
pub put_sorted-get_elem? :
    (lo hi : ℕ) (r : Pairs) (i : ℕ) (k w v : Bytes)
    → hi < 2 ^ 64
    → Keyed lo hi r
    → get_elem? r i ≡ some (k, w)
    → put_sorted k v r ≡ set r i (k, v)
unfolding put_sorted
put_sorted-get_elem? lo hi [] i k w v b h g = cc
put_sorted-get_elem? lo hi ((j, u) ∷ r) zero k w v b h g =
    let e : j ≡ k = ground arith in rw e (rw (==_refl k))
put_sorted-get_elem? lo hi ((j, u) ∷ r) (suc i) k w v b (p, e, l, z, h) g =
    let (q, f, m, n) = Keyed-get_elem? p hi r i k w h g in
    let less = u64_to_bytes_mono p q m (omega arith) in
    let ih = put_sorted-get_elem? p hi r i k w v b h g in
    let ne : (j == k) ≡ false = rw (e, f) (ltb-ne (u64_to_bytes p) (u64_to_bytes q) less) in
    let below : bytes_ltb k j ≡ false =
      rw (e, f) (ltb_asym (u64_to_bytes p) (u64_to_bytes q) less) in
    rw (ne, below, ih)

pub Keyed-set :
    (lo hi : ℕ) (r : Pairs) (i : ℕ) (k w v : Bytes)
    → length v ≤ max_value_size
    → Keyed lo hi r
    → get_elem? r i ≡ some (k, w)
    → Keyed lo hi (set r i (k, v))
Keyed-set lo hi [] i k w v fits h g = h
Keyed-set lo hi ((j, u) ∷ r) zero k w v fits (q, e, l, z, h) g = (q, cc, l, fits, h)
Keyed-set lo hi ((j, u) ∷ r) (suc i) k w v fits (p, e, l, z, h) g =
    (p, e, l, z, Keyed-set p hi r i k w v fits h g)

-- What the loop of LTrim leaves: the entries whose index lies between `s` and `e`.
unfoldable pub keep_between : ℕ → ℕ → ℕ → Pairs → Pairs
keep_between idx s e [] = []
keep_between idx s e (kv ∷ r) =
    let rest = keep_between (idx + 1) s e r in if ltb idx s || ltb e idx then rest else kv ∷ rest

keep_between-above : (idx s e : ℕ) (r : Pairs) → e < idx → keep_between idx s e r ≡ []
unfolding keep_between
keep_between-above idx s e [] h = refl
keep_between-above idx s e (kv ∷ r) h = ground (arith, keep_between-above (idx + 1) s e r)

keep_between-take :
    (idx s e n : ℕ) (r : Pairs) → s ≤ idx → e + 1 ≡ idx + n → keep_between idx s e r ≡ take n r
unfolding keep_between
keep_between-take idx s e zero r h k = keep_between-above idx s e r (omega arith)
keep_between-take idx s e (suc n) [] h k = refl
keep_between-take idx s e (suc n) (kv ∷ r) h k =
    ground (arith, keep_between-take (idx + 1) s e n r (omega arith) (omega arith))

keep_between-drop :
    (idx s e n : ℕ) (r : Pairs)
    → idx + n ≡ s
    → s ≤ e
    → keep_between idx s e r ≡ take (e + 1 - s) (drop n r)
unfolding keep_between
keep_between-drop idx s e zero r h k =
    keep_between-take idx s e (e + 1 - s) r (omega arith) (omega arith)
keep_between-drop idx s e (suc n) [] h k = sym (take-nil (e + 1 - s))
keep_between-drop idx s e (suc n) (kv ∷ r) h k =
    ground (arith, keep_between-drop (idx + 1) s e n r (omega arith) k)

pub keep_between-cut : (s e : ℕ) (r : Pairs) → s ≤ e → keep_between 0 s e r ≡ cut r s e
unfolding cut
keep_between-cut s e r h = keep_between-drop 0 s e s r (omega arith) h
