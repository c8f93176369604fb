-- ===== src/Store/Range/Slices.antt =====
-- The loops and bounds of internal/bbolt.go and internal/redis.go against the indices of a range.
use trailarr.Prelude.{
  ℕ, zero, suc, ◌+◌, ◌-◌, ◌≤◌, ◌<◌, ◌≡◌, refl, ap, sym, ◌∙◌, Bool, true, false, ◌&&◌, not, none,
  some, List, [], ◌∷◌, map, arith, length, take, take-nil, drop, leb, inl, inr, Option-cases,
}
use trailarr.Prelude.Int.{ℤ, pos, negsuc, ltb_ℤ, pos_part, neg_part}
use trailarr.Store.Range.{
  clamp_start, clamp_stop, normalize_range, cut, range_bounds, range_of, copy_loop, from_end,
  listed, keep_if, slice,
}

-- The bounds that survive the test lie inside the list.
pub normalize_range_bounds :
    (n : ℕ) (start stop : ℤ) (s e : ℕ)
    → normalize_range n start stop ≡ some (s, e)
    → (s ≤ e) × (e < n)
unfolding normalize_range clamp_start clamp_stop
normalize_range_bounds n start stop s e h = ground arith

clamp_start_nonneg : (n : ℕ) (start : ℤ) → neg_part (clamp_start (pos n) start) ≡ 0
unfolding clamp_start
clamp_start_nonneg n start = ground arith

-- The extra test of LRange, start >= n, never decides.
pub range_bounds-eq-normalize_range :
    (n : ℕ) (start stop : ℤ) → range_bounds n start stop ≡ normalize_range n start stop
unfolding range_bounds normalize_range clamp_stop
range_bounds-eq-normalize_range n start stop = ground (arith, clamp_start_nonneg n start)

abbrev between : ℕ → ℕ → ℕ → Bool
between s e i = leb s i && leb i e

start_test :
    (n i : ℕ) (start : ℤ)
    → i < n
    → not (ltb_ℤ (pos i) (from_end n start)) ≡ leb (pos_part (clamp_start (pos n) start)) i
unfolding clamp_start from_end
start_test n i (pos a) l = ground arith
start_test n i (negsuc a) l = ground arith

stop_test :
    (n i : ℕ) (stop : ℤ)
    → i < n
    → not (ltb_ℤ (from_end n stop) (pos i)) ≡ (
        not (ltb_ℤ (clamp_stop (pos n) stop) (pos 0)) && leb i (pos_part (clamp_stop (pos n) stop)))
unfolding clamp_stop from_end
stop_test n i (pos a) l = ground arith
stop_test n i (negsuc a) l = ground arith

listed_clamped :
    (n : ℕ) (start stop : ℤ) (i : ℕ)
    → i < n
    → listed n start stop i ≡ (
        leb (pos_part (clamp_start (pos n) start)) i
        && (not (ltb_ℤ (clamp_stop (pos n) stop) (pos 0))
            && leb i (pos_part (clamp_stop (pos n) stop))))
unfolding listed
listed_clamped n start stop i l = rw (start_test n i start l, stop_test n i stop l)

listed-between :
    (n : ℕ) (start stop : ℤ) (s e i : ℕ)
    → normalize_range n start stop ≡ some (s, e)
    → i < n
    → listed n start stop i ≡ between s e i
unfolding normalize_range
listed-between n start stop s e i h l =
    rw (listed_clamped n start stop i l) (ground (arith, clamp_start_nonneg n start))

not-listed :
    (n : ℕ) (start stop : ℤ) (i : ℕ)
    → normalize_range n start stop ≡ none
    → i < n
    → listed n start stop i ≡ false
unfolding normalize_range
not-listed n start stop i h l =
    rw (listed_clamped n start stop i l) (ground (arith, clamp_start_nonneg n start))

between-true : (s e i : ℕ) → s ≤ i → i ≤ e → between s e i ≡ true
between-true s e i h k = ground arith

module _ {ℓ} {A : Type ℓ} where
  keep_if-congr :
      (p q : ℕ → Bool) (n idx : ℕ) (xs : List A)
      → ((i : ℕ) → i < n → p i ≡ q i)
      → idx + length xs ≤ n
      → keep_if p idx xs ≡ keep_if q idx xs
  unfolding keep_if
  keep_if-congr p q n idx [] h l = refl
  keep_if-congr p q n idx (x ∷ xs) h l =
      rw (h idx (omega arith), keep_if-congr p q n (idx + 1) xs h (omega arith))

  keep_if-none : (idx : ℕ) (xs : List A) → keep_if (λ _. false) idx xs ≡ []
  unfolding keep_if
  keep_if-none idx [] = refl
  keep_if-none idx (x ∷ xs) = keep_if-none (idx + 1) xs

  keep_if-past : (idx s e : ℕ) (xs : List A) → e < idx → keep_if (between s e) idx xs ≡ []
  unfolding keep_if
  keep_if-past idx s e [] h = refl
  keep_if-past idx s e (x ∷ xs) h = ground (arith, keep_if-past (idx + 1) s e xs)

  keep_if-take :
      (idx s e n : ℕ) (xs : List A)
      → s ≤ idx
      → e + 1 ≡ idx + n
      → keep_if (between s e) idx xs ≡ take n xs
  unfolding keep_if
  keep_if-take idx s e zero xs h k = keep_if-past idx s e xs (omega arith)
  keep_if-take idx s e (suc n) [] h k = refl
  keep_if-take idx s e (suc n) (x ∷ xs) h k =
      rw (between-true s e idx h (omega arith))
        (ap (◌∷◌ x) (keep_if-take (idx + 1) s e n xs (omega arith) (omega arith)))

  keep_if-drop :
      (idx s e n : ℕ) (xs : List A)
      → idx + n ≡ s
      → s ≤ e
      → keep_if (between s e) idx xs ≡ take (e + 1 - s) (drop n xs)
  unfolding keep_if
  keep_if-drop idx s e zero xs h k = keep_if-take idx s e (e + 1 - s) xs (omega arith) (omega arith)
  keep_if-drop idx s e (suc n) [] h k = sym (take-nil (e + 1 - s))
  keep_if-drop idx s e (suc n) (x ∷ xs) h k =
      ground (arith, keep_if-drop (idx + 1) s e n xs (omega arith) k)

  -- The normalised range cuts out the listed elements; an empty one lists none.
  pub cut-slice :
      (xs : List A) (start stop : ℤ) (s e : ℕ)
      → normalize_range (length xs) start stop ≡ some (s, e)
      → cut xs s e ≡ slice xs start stop
  unfolding cut slice
  cut-slice xs start stop s e h = sym (
      keep_if-congr _ (between s e) (length xs) 0 xs
        (λ i l. listed-between (length xs) start stop s e i h l) (omega arith)
      ∙ keep_if-drop 0 s e s xs (omega arith)
          (normalize_range_bounds (length xs) start stop s e h).0)

  pub slice-empty :
      (xs : List A) (start stop : ℤ)
      → normalize_range (length xs) start stop ≡ none
      → slice xs start stop ≡ []
  unfolding slice
  slice-empty xs start stop h =
      keep_if-congr _ (λ _. false) (length xs) 0 xs (λ i l. not-listed (length xs) start stop i h l)
        (omega arith)
      ∙ keep_if-none 0 xs

  pub slice-nil : (start stop : ℤ) → slice {A = A} [] start stop ≡ []
  unfolding slice keep_if
  slice-nil start stop = refl

  keep_if-map {κ} :
      {B : Type κ} (f : A → B) (p : ℕ → Bool) (idx : ℕ) (xs : List A)
      → map f (keep_if p idx xs) ≡ keep_if p idx (map f xs)
  unfolding keep_if
  keep_if-map f p idx [] = refl
  keep_if-map f p idx (x ∷ xs) = ground (arith, keep_if-map f p (idx + 1) xs)

  -- The clamped bounds of LRange cut out exactly the entries whose index lies between the two
  -- ends, a negative end counted from the end of the list.
  pub range_of-slice : (xs : List A) (start stop : ℤ) → range_of xs start stop ≡ slice xs start stop
  unfolding range_of
  range_of-slice xs start stop =
      rw (range_bounds-eq-normalize_range (length xs) start stop)
        (elim (Option-cases (normalize_range (length xs) start stop)) [
          | inl h ↦ rw h (sym (slice-empty xs start stop h))
          | inr ((s, e), h) ↦ rw h (cut-slice xs start stop s e h)
        ])

  copy_loop-suc :
      (i rounds : ℕ) (x : A) (xs : List A)
      → copy_loop (x ∷ xs) (suc i) rounds ≡ copy_loop xs i rounds
  unfolding copy_loop
  copy_loop-suc i zero x xs = refl
  copy_loop-suc i (suc r) x xs =
      let e : suc i + 1 ≡ suc (i + 1) = omega arith in rw e (rw (copy_loop-suc (i + 1) r x xs) refl)

  copy_loop-take :
      (rounds : ℕ) (xs : List A)
      → rounds ≤ length xs
      → copy_loop xs 0 rounds ≡ some (take rounds xs)
  unfolding copy_loop
  copy_loop-take zero xs h = refl
  copy_loop-take (suc r) [] h = absurd (omega arith)
  copy_loop-take (suc r) (x ∷ xs) h =
      rw (copy_loop-suc 0 r x xs) (rw (copy_loop-take r xs (omega arith)))

  -- From an index and for a number of rounds that stay within the list, the copying loop of
  -- memBolt never leaves it and copies those entries in order.
  pub copy_loop-cut :
      (i rounds : ℕ) (xs : List A)
      → i + rounds ≤ length xs
      → copy_loop xs i rounds ≡ some (take rounds (drop i xs))
  copy_loop-cut zero r xs h = copy_loop-take r xs (omega arith)
  copy_loop-cut (suc i) r [] h = absurd (omega arith)
  copy_loop-cut (suc i) r (x ∷ xs) h = copy_loop-suc i r x xs ∙ copy_loop-cut i r xs (omega arith)
