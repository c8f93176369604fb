-- ===== src/Store/Range.antt =====
-- The ranges of LRANGE and LTRIM: int64 indices, negative ones from the end. A length is at most
-- 2^63 - 1 and the sums below add a negative number to it, so that no sum wraps.
pub mod Slices
use trailarr.Prelude.{
  ℕ, zero, suc, ◌+◌, ◌-◌, ◌≤◌, ◌<◌, ◌≡◌, refl, ap, sym, ◌∙◌, Bool, true, false, ◌&&◌, ◌||◌, not,
  Option, none, some, List, [], ◌∷◌, map, arith, length, get_elem?, take, take-nil, drop, eqb, leb,
  ltb, if◌then◌else◌, inl, inr, Option-cases,
}
use trailarr.Prelude.Int.{ℤ, pos, negsuc, ◌+ℤ◌, ltb_ℤ, pos_part, neg_part}

-- The two corrections of a negative start and of a stop, in the order of the code.
unfoldable pub clamp_start : ℤ → ℤ → ℤ
unfolding ◌+ℤ◌
clamp_start n start =
    let s = if ltb_ℤ start (pos 0) then n +ℤ start else start in
    if ltb_ℤ s (pos 0) then pos 0 else s

unfoldable pub clamp_stop : ℤ → ℤ → ℤ
unfolding ◌+ℤ◌
clamp_stop n stop =
    let e = if ltb_ℤ stop (pos 0) then n +ℤ stop else stop in if ltb_ℤ e n then e else n +ℤ negsuc 0

-- normalizeRange: none stands for the flag `empty`.
unfoldable pub normalize_range : ℕ → ℤ → ℤ → Option (ℕ × ℕ)
normalize_range n start stop =
    if eqb n 0
    then none
    else (let s = clamp_start (pos n) start in
        let e = clamp_stop (pos n) stop in
        if ltb_ℤ e s then none else some (pos_part s, pos_part e))

-- xs[s : e + 1]
unfoldable pub cut {ℓ} : {A : Type ℓ} → List A → ℕ → ℕ → List A
cut xs s e = take (e + 1 - s) (drop s xs)

-- The same bounds as LRange computes them; none stands for the empty result.
unfoldable pub range_bounds : ℕ → ℤ → ℤ → Option (ℕ × ℕ)
range_bounds n start stop =
    if eqb n 0
    then none
    else (let s = clamp_start (pos n) start in
        let e = clamp_stop (pos n) stop in
        if ltb_ℤ e s || not (ltb_ℤ s (pos n)) then none else some (pos_part s, pos_part e))

abbrev pub cut_at {ℓ} : {A : Type ℓ} → List A → Option (ℕ × ℕ) → List A
cut_at xs none = []
cut_at xs (some (s, e)) = cut xs s e

unfoldable pub range_of {ℓ} : {A : Type ℓ} → List A → ℤ → ℤ → List A
range_of out start stop = cut_at out (range_bounds (length out) start stop)

-- `for i := start; i <= stop; i++ { out = append(out, vals[i]) }`, with `rounds` rounds left. An
-- index out of range would panic, which is the result none.
abbrev pub push_front {ℓ} : {A : Type ℓ} → Option A → Option (List A) → Option (List A)
push_front none rest = none
push_front (some v) none = none
push_front (some v) (some out) = some (v ∷ out)

unfoldable pub copy_loop {ℓ} : {A : Type ℓ} → List A → ℕ → ℕ → Option (List A)
copy_loop vals i zero = some []
copy_loop vals i (suc rounds) = push_front (get_elem? vals i) (copy_loop vals (i + 1) rounds)

-- The reference: which indices a range lists, each end counted from the end of the list if it is
-- negative, with no clamping.
unfoldable pub from_end : ℕ → ℤ → ℤ
unfolding ◌+ℤ◌
from_end n (pos i) = pos i
from_end n (negsuc i) = pos n +ℤ negsuc i

unfoldable pub listed : ℕ → ℤ → ℤ → ℕ → Bool
unfolding from_end
listed n start stop i =
    not (ltb_ℤ (pos i) (from_end n start)) && not (ltb_ℤ (from_end n stop) (pos i))

-- The elements whose index satisfies `p`, the first having index `idx`.
unfoldable pub keep_if {ℓ} : {A : Type ℓ} → (ℕ → Bool) → ℕ → List A → List A
keep_if p idx [] = []
keep_if p idx (x ∷ xs) = let rest = keep_if p (idx + 1) xs in if p idx then x ∷ rest else rest

unfoldable pub slice {ℓ} : {A : Type ℓ} → List A → ℤ → ℤ → List A
slice xs start stop = keep_if (listed (length xs) start stop) 0 xs
