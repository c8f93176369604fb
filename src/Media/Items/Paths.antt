-- ===== src/Media/Items/Paths.antt =====
-- The path mappings: updateItemPath of internal/media.go.
use trailarr.Prelude.{
  ◌≡◌, ◌≢◌, refl, sym, ap, ◌∙◌, true, false, Option, none, some, List, [], ◌∷◌, ◌++◌, length, drop,
  Bytes, bytes, contains, has_prefix, arith, Bool-cases, inl, inr, ◌⊎◌,
}
use trailarr.Media.Items.{MediaType, movie, tv, contains_any, crosses, mapped_path}

has_prefix-append : (from p : Bytes) → has_prefix from p ≡ true → p ≡ from ++ drop (length from) p
unfolding has_prefix
has_prefix-append [] p h = refl
has_prefix-append (f ∷ from) [] h = let no : ⊥ = cc h in absurd no
has_prefix-append (f ∷ from) (c ∷ p) h = ground (arith, has_prefix-append from p)

append-has_prefix : (from rest : Bytes) → has_prefix from (from ++ rest) ≡ true
unfolding has_prefix
append-has_prefix [] rest = refl
append-has_prefix (f ∷ from) rest = ground (arith, append-has_prefix from rest)

module _ (to_lower : Bytes → Bytes) where
  -- The path is one of series, or of films, as its folders say.
  abbrev pub IsSeriesPath : Bytes → Type 0
  IsSeriesPath p =
      (contains (to_lower p) (bytes "/tv/") ≡ true)
      ⊎ (contains (to_lower p) (bytes "/series/") ≡ true)

  abbrev pub IsFilmPath : Bytes → Type 0
  IsFilmPath p =
      (contains (to_lower p) (bytes "/movie/") ≡ true)
      ⊎ (contains (to_lower p) (bytes "/movies/") ≡ true)

  -- A path of its own kind becomes one of the other kind.
  unfoldable pub Swaps : MediaType → Bytes → Bytes → Type 0
  Swaps tv old new = IsSeriesPath old × IsFilmPath new
  Swaps movie old new = IsFilmPath old × IsSeriesPath new

  -- The first mapping whose `from` starts the path, and which does not swap the kinds, gives the
  -- new path: its `to`, then the rest of the path.
  pub data Mapped (t : MediaType) (p : Bytes) : List (Bytes × Bytes) → Option Bytes → Type 0 where
    no_mapping : Mapped t p [] none
    elsewhere :
        {from to : Bytes} {mappings : List (Bytes × Bytes)} {new : Option Bytes}
        → ((rest : Bytes) → p ≢ from ++ rest)
        → Mapped t p mappings new
        → Mapped t p ((from, to) ∷ mappings) new
    swapping :
        {from to : Bytes} {mappings : List (Bytes × Bytes)} {new : Option Bytes} (rest : Bytes)
        → p ≡ from ++ rest
        → Swaps t p (to ++ rest)
        → Mapped t p mappings new
        → Mapped t p ((from, to) ∷ mappings) new
    applied :
        {from to : Bytes} {mappings : List (Bytes × Bytes)} (rest : Bytes)
        → p ≡ from ++ rest
        → ¬ Swaps t p (to ++ rest)
        → Mapped t p ((from, to) ∷ mappings) (some (to ++ rest))

  any_of_two :
      (s a b : Bytes)
      → contains_any s (a ∷ b ∷ []) ≡ true
      → (contains s a ≡ true) ⊎ (contains s b ≡ true)
  unfolding contains_any
  any_of_two s a b h = ground (arith, h)

  none_of_two :
      (s a b : Bytes)
      → contains_any s (a ∷ b ∷ []) ≡ false
      → ¬ ((contains s a ≡ true) ⊎ (contains s b ≡ true))
  unfolding contains_any
  none_of_two s a b h = ground (arith, h)

  crosses-Swaps :
      (t : MediaType) (old new : Bytes) → crosses to_lower t old new ≡ true → Swaps t old new
  unfolding crosses Swaps
  crosses-Swaps tv old new h = (
    any_of_two (to_lower old) (bytes "/tv/") (bytes "/series/") (ground (arith, h)),
    any_of_two (to_lower new) (bytes "/movie/") (bytes "/movies/") (ground (arith, h)),
  )
  crosses-Swaps movie old new h = (
    any_of_two (to_lower old) (bytes "/movie/") (bytes "/movies/") (ground (arith, h)),
    any_of_two (to_lower new) (bytes "/tv/") (bytes "/series/") (ground (arith, h)),
  )

  not-Swaps :
      (t : MediaType) (old new : Bytes) → crosses to_lower t old new ≡ false → ¬ Swaps t old new
  unfolding crosses Swaps
  not-Swaps tv old new h (a, b) =
      elim (Bool-cases (contains_any (to_lower old) (bytes "/tv/" ∷ bytes "/series/" ∷ []))) [
        | inr n ↦ none_of_two (to_lower old) (bytes "/tv/") (bytes "/series/") n a
        | inl y ↦
            none_of_two (to_lower new) (bytes "/movie/") (bytes "/movies/") (ground (arith, h, y)) b
      ]
  not-Swaps movie old new h (a, b) =
      elim (Bool-cases (contains_any (to_lower old) (bytes "/movie/" ∷ bytes "/movies/" ∷ []))) [
        | inr n ↦ none_of_two (to_lower old) (bytes "/movie/") (bytes "/movies/") n a
        | inl y ↦
            none_of_two (to_lower new) (bytes "/tv/") (bytes "/series/") (ground (arith, h, y)) b
      ]

  -- updateItemPath uses the first mapping whose `from` starts the path and which does not take a
  -- path with a folder of its own kind of media to one with a folder of the other kind: the new
  -- path is its `to` and the rest of the old one. If there is no such mapping, it finds no new
  -- path.
  pub mapped_path-Mapped :
      (t : MediaType) (p : Bytes) (mappings : List (Bytes × Bytes))
      → Mapped t p mappings (mapped_path to_lower t p mappings)
  unfolding mapped_path
  mapped_path-Mapped t p [] = no_mapping
  mapped_path-Mapped t p ((f, g) ∷ mappings) =
      let later = mapped_path-Mapped t p mappings in
      elim (Bool-cases (has_prefix f p)) [
        | inr n ↦
            let other : (rest : Bytes) → p ≢ f ++ rest = λ rest e.
              let no : false ≡ true = sym n ∙ ap (has_prefix f) e ∙ append-has_prefix f rest in
              cc no in
            rw n (elsewhere other later)
        | inl y ↦
            let rest = drop (length f) p in
            let split = has_prefix-append f p y in
            elim (Bool-cases (crosses to_lower t p (g ++ rest))) [
              | inl c ↦ rw (y, c) (swapping rest split (crosses-Swaps t p (g ++ rest) c) later)
              | inr c ↦ rw (y, c) (applied rest split (not-Swaps t p (g ++ rest) c))
            ]
      ]
