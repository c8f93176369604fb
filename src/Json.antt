-- ===== src/Json.antt =====
-- encoding/json, as far as the components use it: a parameter, with what they rely on as
-- hypotheses on the values that a theorem is about.
use mathlib.Core.List.{map-append}
use trailarr.Store.Recent.{last_n, map-last_n}
use trailarr.Prelude.{
  zero, suc, get_elem?, length, length-map, set, map-set, ℕ, ◌∙◌, sym, ◌≡◌, refl, ap, Option, none,
  some, List, [], ◌∷◌, ◌++◌, Bytes, map,
}

-- json.Marshal and json.Unmarshal for one type; none stands for an error.
pub record Codec (A : Type 0) : Type 0 where
  pub marshal : A → Option Bytes
  pub unmarshal : Bytes → Option A

module _ {A : Type 0} (C : Codec A) where
  -- `b` is what marshalling `a` gives, and reads back as `a`: so for text in UTF-8 and times without
  -- a monotonic clock.
  pub record Encodes (a : A) (b : Bytes) : Type 0 where
    pub written : C.marshal a ≡ some b
    pub read : C.unmarshal b ≡ some a

  abbrev keep : Option A → List A → List A
  keep none rest = rest
  keep (some a) rest = a ∷ rest

  -- The loop of every loader: what does not unmarshal is skipped.
  unfoldable pub decode_all : List Bytes → List A
  decode_all [] = []
  decode_all (v ∷ vs) = keep (C.unmarshal v) (decode_all vs)

  -- vals[i], unmarshalled; none stands for an error.
  abbrev pub entry : List Bytes → ℕ → Option A
  entry vals i = elim (get_elem? vals i) [ none ↦ none | some v ↦ C.unmarshal v ]

  -- The entries are the encodings of these values, in order.
  abbrev pub Holds : List Bytes → List A → Type 0
  Holds vs as_ = map C.unmarshal vs ≡ map some as_

  pub decode_all-Holds : (vs : List Bytes) (as_ : List A) → Holds vs as_ → decode_all vs ≡ as_
  unfolding decode_all
  decode_all-Holds [] [] h = refl
  decode_all-Holds [] (a ∷ as_) h = let no : ⊥ = cc h in absurd no
  decode_all-Holds (v ∷ vs) [] h = let no : ⊥ = cc h in absurd no
  decode_all-Holds (v ∷ vs) (a ∷ as_) h =
      let head : C.unmarshal v ≡ some a = cc h in
      let tail : map C.unmarshal vs ≡ map some as_ = cc h in
      rw head (ap (◌∷◌ a) (decode_all-Holds vs as_ tail))

  pub Holds-append :
      (vs ws : List Bytes) (as_ bs : List A)
      → Holds vs as_
      → Holds ws bs
      → Holds (vs ++ ws) (as_ ++ bs)
  Holds-append vs ws as_ bs h k =
      map-append C.unmarshal vs ws
      ∙ ap (λ xs. xs ++ map C.unmarshal ws) h
      ∙ ap (λ ys. map some as_ ++ ys) k
      ∙ sym (map-append some as_ bs)

  pub Holds-last_n :
      (n : ℕ) (vs : List Bytes) (as_ : List A) → Holds vs as_ → Holds (last_n n vs) (last_n n as_)
  Holds-last_n n vs as_ h =
      map-last_n C.unmarshal n vs ∙ ap (last_n n) h ∙ sym (map-last_n some n as_)

  pub Holds-set :
      (vs : List Bytes) (as_ : List A) (i : ℕ) (b : Bytes) (a : A)
      → Holds vs as_
      → C.unmarshal b ≡ some a
      → Holds (set vs i b) (set as_ i a)
  Holds-set vs as_ i b a h e =
      map-set C.unmarshal vs i b ∙ (λ t. set (h t) i (e t)) ∙ sym (map-set some as_ i a)

  pub entry-Holds :
      (vs : List Bytes) (as_ : List A) (i : ℕ) → Holds vs as_ → entry vs i ≡ get_elem? as_ i
  entry-Holds [] [] i h = refl
  entry-Holds [] (a ∷ as_) i h = let no : ⊥ = cc h in absurd no
  entry-Holds (v ∷ vs) [] i h = let no : ⊥ = cc h in absurd no
  entry-Holds (v ∷ vs) (a ∷ as_) zero h = cc h
  entry-Holds (v ∷ vs) (a ∷ as_) (suc i) h =
      let tail : Holds vs as_ = cc h in entry-Holds vs as_ i tail

  pub length-Holds : (vs : List Bytes) (as_ : List A) → Holds vs as_ → length vs ≡ length as_
  length-Holds vs as_ h = sym (length-map C.unmarshal vs) ∙ ap length h ∙ length-map some as_
