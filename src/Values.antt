-- ===== src/Values.antt =====
-- The values of Go's `interface{}` that YAML and JSON decode to, and `map[string]interface{}`.
-- A float64 is its bit pattern. `encoded v` is a value of a struct type or of a typed map or slice,
-- which the encoders write as they write `v`, and which no type assertion of the code matches.
use trailarr.Prelude.{
  ℕ, ◌≡◌, refl, Bool, true, false, Option, none, some, List, [], ◌∷◌, Bytes, ◌==◌, ==_iff, arith,
  if◌then◌else◌, Option-cases, inl, inr,
}
use mathlib.Core.Option
use trailarr.Prelude.Int.{ℤ}

mutual
  pub data Value : Type 0 where
    null : Value
    bool : Bool → Value
    int : ℤ → Value
    float : ℕ → Value
    text : Bytes → Value
    items : Items → Value
    fields : Fields → Value
    encoded : Value → Value

  pub data Items : Type 0 where
    nil : Items
    item : Value → Items → Items

  pub data Fields : Type 0 where
    end : Fields
    field : Bytes → Value → Fields → Fields

-- v, ok := m[k]
unfoldable pub get : Bytes → Fields → Option Value
get k end = none
get k (field j w m) = if j == k then some w else get k m

-- m[k] = v
unfoldable pub put : Bytes → Value → Fields → Fields
put k v end = field k v end
put k v (field j w m) = if j == k then field k v m else field j w (put k v m)

pub get-put :
    (k j : Bytes) (v : Value) (m : Fields)
    → get j (put k v m) ≡ (if k == j then some v else get j m)
unfolding get put
get-put k j v end = refl
get-put k j v (field i w m) = ground (arith, ==_iff k j, ==_iff i k, ==_iff i j, get-put k j v m)

-- v, ok := m[k].(T), with the test of the type; a missing key is a nil interface.
abbrev pub or_null : Option Value → Value
or_null none = null
or_null (some v) = v

abbrev pub as_bool : Value → Option Bool
as_bool (bool b) = some b
as_bool v = none

abbrev pub as_text : Value → Option Bytes
as_text (text s) = some s
as_text v = none

abbrev pub as_fields : Value → Option Fields
as_fields (fields m) = some m
as_fields v = none

abbrev pub as_items : Value → Option Items
as_items (items xs) = some xs
as_items v = none

abbrev pub is_null : Value → Bool
is_null null = true
is_null v = false

unfoldable pub at : Bytes → Fields → Value
at k m = or_null (get k m)

pub at-put :
    (k j : Bytes) (v : Value) (m : Fields) → at j (put k v m) ≡ (if k == j then v else at j m)
unfolding at
at-put k j v m = ground (arith, get-put k j v m)

-- What is left of a value when it was written and read again, with `reread` for a float64: YAML
-- writes 3.0 as it writes 3.
module _ (reread : ℕ → Value) where
  unfoldable mutual
    pub plain : Value → Value
    plain (items xs) = items (plain_items xs)
    plain (fields m) = fields (plain_fields m)
    plain (encoded v) = plain v
    plain null = null
    plain (bool b) = bool b
    plain (int n) = int n
    plain (float x) = reread x
    plain (text s) = text s

    pub plain_items : Items → Items
    plain_items nil = nil
    plain_items (item v xs) = item (plain v) (plain_items xs)

    pub plain_fields : Fields → Fields
    plain_fields end = end
    plain_fields (field k v m) = field k (plain v) (plain_fields m)

  pub get-plain_fields :
      (k : Bytes) (m : Fields) → get k (plain_fields m) ≡ Option.map plain (get k m)
  unfolding get plain_fields
  get-plain_fields k end = refl
  get-plain_fields k (field j v m) = ground (arith, get-plain_fields k m)

  pub plain-fields : (m : Fields) → plain (fields m) ≡ fields (plain_fields m)
  unfolding plain
  plain-fields m = refl

  pub at-plain_fields : (k : Bytes) (m : Fields) → at k (plain_fields m) ≡ plain (at k m)
  unfolding at plain
  at-plain_fields k m = elim (Option-cases (get k m)) [
    | inl e ↦ rw (get-plain_fields k m, e) refl
    | inr (v, e) ↦ rw (get-plain_fields k m, e) refl
  ]

-- A list of strings, and a map with string values.
abbrev pub texts : List Bytes → Items
texts [] = nil
texts (s ∷ ss) = item (text s) (texts ss)

abbrev pub of_entries : List (Bytes × Value) → Fields
of_entries [] = end
of_entries ((k, v) ∷ m) = field k v (of_entries m)

abbrev pub to_list : Items → List Value
to_list nil = []
to_list (item v xs) = v ∷ to_list xs

-- The entries of a map, in some order of iteration.
abbrev pub entries : Fields → List (Bytes × Value)
entries end = []
entries (field k v m) = (k, v) ∷ entries m
