-- ===== src/Store/Keys.antt =====
-- u64ToBytes of internal/bbolt.go: list entries are keyed by big endian sequence numbers.
use native.Mathlib.Decide.{dec_lt}
use native.Mathlib.Nat.{pow-suc}
use trailarr.Prelude.{
  ℕ, zero, suc, ◌/◌, ◌%◌, ◌^◌, ◌<◌, ◌≡◌, refl, ◌∙◌, sym, true, [], ◌∷◌, ◌++◌, arith, length,
  length-append, Bytes, ◌==◌, ==_iff, false, bytes_ltb,
}

-- PutUint64 writes the bytes of `i` from the highest to the lowest.
unfoldable pub be_bytes : ℕ → ℕ → Bytes
be_bytes zero i = []
be_bytes (suc w) i = be_bytes w (i / 256) ++ (i % 256) ∷ []

unfoldable pub u64_to_bytes : ℕ → Bytes
unfolding be_bytes
u64_to_bytes i = be_bytes 8 i

length-be_bytes : (w i : ℕ) → length (be_bytes w i) ≡ w
unfolding be_bytes
length-be_bytes zero i = refl
length-be_bytes (suc w) i =
    omega
      (arith, length-append (be_bytes w (i / 256)) ((i % 256) ∷ []), length-be_bytes w (i / 256))

pub length-u64_to_bytes : (i : ℕ) → length (u64_to_bytes i) ≡ 8
unfolding u64_to_bytes
length-u64_to_bytes i = length-be_bytes 8 i

ltb-append :
    (xs ys us vs : Bytes)
    → length xs ≡ length ys
    → bytes_ltb xs ys ≡ true
    → bytes_ltb (xs ++ us) (ys ++ vs) ≡ true
unfolding bytes_ltb
ltb-append [] [] us vs e h = cc
ltb-append [] (y ∷ ys) us vs e h = absurd (omega arith)
ltb-append (x ∷ xs) [] us vs e h = cc
ltb-append (x ∷ xs) (y ∷ ys) us vs e h = ground (arith, ltb-append xs ys us vs (omega arith))

ltb-append_same :
    (xs us vs : Bytes) → bytes_ltb us vs ≡ true → bytes_ltb (xs ++ us) (xs ++ vs) ≡ true
unfolding bytes_ltb
ltb-append_same [] us vs h = h
ltb-append_same (x ∷ xs) us vs h = ground (arith, ltb-append_same xs us vs h)

ltb-be_bytes : (w a b : ℕ) → a < b → b < 256 ^ w → bytes_ltb (be_bytes w a) (be_bytes w b) ≡ true
unfolding be_bytes
ltb-be_bytes zero a b h k = absurd (omega arith)
ltb-be_bytes (suc w) a b h k = elim (dec_lt (a / 256) (b / 256)) [
  | yes p ↦
      ltb-append (be_bytes w (a / 256)) (be_bytes w (b / 256)) _ _
        (length-be_bytes w (a / 256) ∙ sym (length-be_bytes w (b / 256)))
        (ltb-be_bytes w (a / 256) (b / 256) p (omega (arith, pow-suc 256 w)))
  | no p ↦
      let e : a / 256 ≡ b / 256 = omega arith in
      rw e (ltb-append_same (be_bytes w (b / 256)) _ _ (unfold bytes_ltb in ground arith))
]

-- Of two sequence numbers below 2^64 the smaller one has the smaller key in byte order.
pub u64_to_bytes_mono :
    (a b : ℕ) → a < b → b < 2 ^ 64 → bytes_ltb (u64_to_bytes a) (u64_to_bytes b) ≡ true
unfolding u64_to_bytes
u64_to_bytes_mono a b h k = ltb-be_bytes 8 a b h k

bytes_ltb_irrefl : (xs : Bytes) → bytes_ltb xs xs ≡ false
unfolding bytes_ltb
bytes_ltb_irrefl [] = refl
bytes_ltb_irrefl (x ∷ xs) = ground (arith, bytes_ltb_irrefl xs)

bytes_ltb_asym : (xs ys : Bytes) → bytes_ltb xs ys ≡ true → bytes_ltb ys xs ≡ false
unfolding bytes_ltb
bytes_ltb_asym [] [] h = cc
bytes_ltb_asym [] (y ∷ ys) h = refl
bytes_ltb_asym (x ∷ xs) [] h = cc
bytes_ltb_asym (x ∷ xs) (y ∷ ys) h = ground (arith, bytes_ltb_asym xs ys)

pub ltb-ne : (xs ys : Bytes) → bytes_ltb xs ys ≡ true → (xs == ys) ≡ false
ltb-ne xs ys h = ground (arith, ==_iff xs ys, bytes_ltb_irrefl xs)

pub ltb-ne' : (xs ys : Bytes) → bytes_ltb xs ys ≡ true → (ys == xs) ≡ false
ltb-ne' xs ys h = ground (arith, ==_iff ys xs, bytes_ltb_irrefl xs)

pub ltb_asym : (xs ys : Bytes) → bytes_ltb xs ys ≡ true → bytes_ltb ys xs ≡ false
ltb_asym = bytes_ltb_asym
