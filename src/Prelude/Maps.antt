-- ===== src/Prelude/Maps.antt =====
-- Go maps with byte string keys, as association lists. Go leaves the order of iteration open; the
-- order here is that of the entries.
use mathlib.Core.Path.{◌≡◌, refl}
use mathlib.Core.List.{List, [], ◌∷◌}
use mathlib.Core.Option.{Option, none, some}
use native.Mathlib.Omega.{arith}
use trailarr.Prelude.Tests.{if◌then◌else◌}
use trailarr.Prelude.ByteText.{Bytes, ◌==◌, ==_iff}

abbrev pub GoMap {ℓ} : Type ℓ → Type ℓ
GoMap V = List (Bytes × V)

module _ {V : Type 0} where
  -- v, ok := m[k]
  unfoldable pub find : Bytes → GoMap V → Option V
  find k [] = none
  find k ((j, w) ∷ m) = if j == k then some w else find k m

  -- delete(m, k)
  unfoldable pub erase : Bytes → GoMap V → GoMap V
  erase k [] = []
  erase k ((j, w) ∷ m) = let rest = erase k m in if j == k then rest else (j, w) ∷ rest

  -- m[k] = v
  unfoldable pub insert : Bytes → V → GoMap V → GoMap V
  insert k v [] = (k, v) ∷ []
  insert k v ((j, w) ∷ m) = if j == k then (k, v) ∷ m else (j, w) ∷ insert k v m

  pub find-insert :
      (k j : Bytes) (v : V) (m : GoMap V)
      → find j (insert k v m) ≡ (if k == j then some v else find j m)
  unfolding find insert
  find-insert k j v [] = refl
  find-insert k j v ((i, w) ∷ m) =
      ground (arith, ==_iff k j, ==_iff i k, ==_iff i j, find-insert k j v m)

  pub find-erase :
      (k j : Bytes) (m : GoMap V) → find j (erase k m) ≡ (if k == j then none else find j m)
  unfolding find erase
  find-erase k j [] = ground arith
  find-erase k j ((i, w) ∷ m) = ground (arith, ==_iff k j, ==_iff i k, ==_iff i j, find-erase k j m)

pub ruleset map_laws = (find-insert, find-erase)
