-- ===== src/Store/Recent.antt =====
-- LTrim(key, -n, -1), which the log lists use: the last n entries stay.
use trailarr.Prelude.{
  ℕ, zero, suc, ◌+◌, ◌-◌, ◌≤◌, ◌<◌, ◌≡◌, refl, ap, ◌∙◌, sym, some, List, [], ◌∷◌, ◌++◌, map, arith,
  length, take, take-all, take-nil, drop, get_elem?, set, length-drop, length-append, map-drop,
  length-map, min,
}
use trailarr.Prelude.Int.{pos, negsuc, ◌+ℤ◌}
use mathlib.Core.List.{reverse, reverse-cons}
use trailarr.Store.Range.{slice, cut, normalize_range, clamp_start, clamp_stop}
use trailarr.Store.Range.Slices.{cut-slice, slice-nil}

module _ {ℓ} {A : Type ℓ} where
  -- The reference for the trimmed list.
  unfoldable pub last_n : ℕ → List A → List A
  last_n n xs = drop (length xs - n) xs

  pub length-last_n : (n : ℕ) (xs : List A) → length (last_n n xs) ≡ min n (length xs)
  unfolding last_n
  length-last_n n xs = omega (arith, length-drop (length xs - n) xs)

range_recent :
    (len n : ℕ) → 0 < len → normalize_range len (negsuc n) (negsuc 0) ≡ some (len - suc n, len - 1)
unfolding normalize_range clamp_start clamp_stop ◌+ℤ◌
range_recent len n h = ground arith

min_zero : (n : ℕ) → min 0 n ≡ 0
min_zero n = omega arith

min_nil : (n : ℕ) → min (suc n) 0 ≡ 0
min_nil n = omega arith

min-suc : (n m : ℕ) → min (suc n) (suc m) ≡ suc (min n m)
min-suc n m = omega arith

range_all : (len : ℕ) → 0 < len → normalize_range len (pos 0) (negsuc 0) ≡ some (0, len - 1)
unfolding normalize_range clamp_start clamp_stop ◌+ℤ◌
range_all len h = ground arith

module _ {ℓ} {A : Type ℓ} where
  drop-nil : (n : ℕ) → drop {A = A} n [] ≡ []
  drop-nil zero = refl
  drop-nil (suc n) = refl

  cut_rest : (ys : List A) (s e : ℕ) → e + 1 ≡ length ys → cut ys s e ≡ drop s ys
  unfolding cut
  cut_rest ys s e h = take-all (e + 1 - s) (drop s ys) (omega (arith, length-drop s ys))

  -- A trim from -n to -1 keeps the last n entries.
  pub slice-last_n : (n : ℕ) (xs : List A) → slice xs (negsuc n) (negsuc 0) ≡ last_n (suc n) xs
  unfolding last_n
  slice-last_n n [] = slice-nil (negsuc n) (negsuc 0) ∙ sym (drop-nil (0 - suc n))
  slice-last_n n (x ∷ xs) =
      let whole : List A = x ∷ xs in
      sym (cut-slice whole (negsuc n) (negsuc 0) _ _ (range_recent (length whole) n (omega arith)))
      ∙ cut_rest whole (length whole - suc n) (length whole - 1) (omega arith)

  -- LRange from 0 to -1 reads the whole list.
  pub slice-all : (xs : List A) → slice xs (pos 0) (negsuc 0) ≡ xs
  slice-all [] = slice-nil (pos 0) (negsuc 0)
  slice-all (x ∷ xs) =
      let whole : List A = x ∷ xs in
      sym (cut-slice whole (pos 0) (negsuc 0) _ _ (range_all (length whole) (omega arith)))
      ∙ cut_rest whole 0 (length whole - 1) (omega arith)

  length-reverse : (xs : List A) → length (reverse xs) ≡ length xs
  length-reverse [] = refl
  length-reverse (x ∷ xs) =
      rw (reverse-cons x xs) (omega (arith, length-append (reverse xs) (x ∷ []), length-reverse xs))

  pub take-append : (n : ℕ) (xs ys : List A) → n ≤ length xs → take n (xs ++ ys) ≡ take n xs
  take-append zero xs ys h = refl
  take-append (suc n) [] ys h = absurd (omega arith)
  take-append (suc n) (x ∷ xs) ys h = ap (◌∷◌ x) (take-append n xs ys (omega arith))

  reverse-drop : (k : ℕ) (xs : List A) → reverse (drop k xs) ≡ take (length xs - k) (reverse xs)
  reverse-drop zero xs =
      sym (take-all (length xs - 0) (reverse xs) (omega (arith, length-reverse xs)))
  reverse-drop (suc k) [] = sym (take-nil (0 - suc k))
  reverse-drop (suc k) (x ∷ xs) =
      let e : suc (length xs) - suc k ≡ length xs - k = omega arith in
      rw e (
        reverse-drop k xs
        ∙ sym (take-append (length xs - k) (reverse xs) (x ∷ []) (omega (arith, length-reverse xs)))
        ∙ ap (take (length xs - k)) (sym (reverse-cons x xs)))

  take-min : (n : ℕ) (xs : List A) → take (min n (length xs)) xs ≡ take n xs
  take-min zero xs = rw (min_zero (length xs)) refl
  take-min (suc n) [] = rw (min_nil n) refl
  take-min (suc n) (x ∷ xs) = rw (min-suc n (length xs)) (ap (◌∷◌ x) (take-min n xs))

  -- Newest first, the last n are the first n.
  pub reverse-last_n : (n : ℕ) (xs : List A) → reverse (last_n n xs) ≡ take n (reverse xs)
  unfolding last_n
  reverse-last_n n xs =
      let e : length xs - (length xs - n) ≡ min n (length (reverse xs)) =
        omega (arith, length-reverse xs) in
      reverse-drop (length xs - n) xs ∙ ap (λ k. take k (reverse xs)) e ∙ take-min n (reverse xs)

module _ {ℓ κ} {A : Type ℓ} {B : Type κ} where
  pub map-last_n : (f : A → B) (n : ℕ) (xs : List A) → map f (last_n n xs) ≡ last_n n (map f xs)
  unfolding last_n
  map-last_n f n xs =
      map-drop f (length xs - n) xs ∙ ap (λ k. drop (k - n) (map f xs)) (sym (length-map f xs))

module _ {ℓ} {A : Type ℓ} where
  drop-append : (k : ℕ) (xs ys : List A) → k ≤ length xs → drop k (xs ++ ys) ≡ drop k xs ++ ys
  drop-append zero xs ys h = refl
  drop-append (suc k) [] ys h = absurd (omega arith)
  drop-append (suc k) (x ∷ xs) ys h = drop-append k xs ys (omega arith)

  -- The entries that stay before a new last one.
  abbrev pub stay : ℕ → List A → List A
  stay n xs = drop (length xs - n) xs

  pub last_n-append :
      (n : ℕ) (xs : List A) (a : A) → last_n (suc n) (xs ++ a ∷ []) ≡ stay n xs ++ a ∷ []
  unfolding last_n
  last_n-append n xs a =
      let e : length (xs ++ a ∷ []) - suc n ≡ length xs - n =
        omega (arith, length-append xs (a ∷ [])) in
      rw e (drop-append (length xs - n) xs (a ∷ []) (omega arith))

  pub set-last :
      (xs : List A) (v b : A) (vs : List A) → set (xs ++ v ∷ vs) (length xs) b ≡ xs ++ b ∷ vs
  set-last [] v b vs = refl
  set-last (x ∷ xs) v b vs = ap (◌∷◌ x) (set-last xs v b vs)

  pub get_elem?-last :
      (xs : List A) (v : A) (vs : List A) → get_elem? (xs ++ v ∷ vs) (length xs) ≡ some v
  get_elem?-last [] v vs = refl
  get_elem?-last (x ∷ xs) v vs = get_elem?-last xs v vs
