-- ===== src/Slices/Filtered.antt =====
-- What Filter keeps.
use trailarr.Prelude.{
  refl, ℕ, zero, suc, ◌≤◌, ◌≡◌, ap, Bool, true, false, List, [], ◌∷◌, ◌++◌, drop, length, arith,
  Bool-cases, inl, inr,
}
use trailarr.Slices.{filter}

pub length-filter {ℓ} :
    {A : Type ℓ} (xs : List A) (keep : A → Bool) → length (filter xs keep) ≤ length xs
unfolding filter
length-filter [] keep = omega arith
length-filter (x ∷ xs) keep = elim (Bool-cases (keep x)) [
  | inl y ↦ rw y (omega (arith, length-filter xs keep))
  | inr n ↦ rw n (omega (arith, length-filter xs keep))
]

-- Every element passes the test.
abbrev pub AllPass {ℓ} : {A : Type ℓ} → (A → Bool) → List A → Type 0
AllPass keep [] = Unit
AllPass keep (x ∷ xs) = (keep x ≡ true) × AllPass keep xs

module _ {ℓ} {A : Type ℓ} (keep : A → Bool) where
  pub AllPass-filter : (xs : List A) → AllPass keep (filter xs keep)
  unfolding filter
  AllPass-filter [] = tt
  AllPass-filter (x ∷ xs) = elim (Bool-cases (keep x)) [
    | inl y ↦ rw y (y, AllPass-filter xs)
    | inr n ↦ rw n (AllPass-filter xs)
  ]

  pub AllPass-drop : (n : ℕ) (xs : List A) → AllPass keep xs → AllPass keep (drop n xs)
  AllPass-drop zero xs a = a
  AllPass-drop (suc n) [] a = tt
  AllPass-drop (suc n) (x ∷ xs) (a, as_) = AllPass-drop n xs as_

  -- Only the last element is filtered out.
  pub filter-last :
      (xs : List A) (b : A) → AllPass keep xs → keep b ≡ false → filter (xs ++ b ∷ []) keep ≡ xs
  unfolding filter
  filter-last [] b a n = rw n refl
  filter-last (x ∷ xs) b (a, as_) n = rw a (ap (◌∷◌ x) (filter-last xs b as_ n))
