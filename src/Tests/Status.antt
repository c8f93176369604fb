-- ===== src/Tests/Status.antt =====
-- The theorem of the versions at concrete ones.
use trailarr.Prelude.{
  ℕ, ◌-◌, ◌≡◌, refl, none, some, Option, [], ◌∷◌, Bytes, bytes, ◌==◌, has_prefix,
}
use trailarr.Status.{newer, compare_version}
use trailarr.Status.Versions.{compare_version_trans}

-- A number of one digit.
abbrev scan : Bytes → Option ℕ
scan s = elim s [ [] ↦ none | c ∷ rest ↦ some (c - 48) ]

compare_version_trans_example : compare_version (λ s. s) scan (bytes "v3") (bytes "1.9") ≡ newer
unfolding compare_version ◌==◌ has_prefix
compare_version_trans_example =
    compare_version_trans (λ s. s) scan (bytes "v3") (bytes "2.1") (bytes "1.9") refl refl
