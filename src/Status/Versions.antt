-- ===== src/Status/Versions.antt =====
-- When compareVersion answers that a version is the newer one.
use trailarr.Prelude.{
  ℕ, zero, suc, ◌<◌, ◌≤◌, ◌+◌, ◌≡◌, refl, sym, subst, ◌∙◌, ltb, false, Option, List, [], ◌∷◌,
  length, Bytes, ◌==◌, ==_iff, arith, Bool-cases, inl, inr,
}
use trailarr.Status.{newer, or_zero, compare_loop, max_length, parse_version, compare_version}

-- The first part that differs is greater in `xs`; parts that are missing count as 0.
pub record FirstGreater (xs ys : List ℕ) (i : ℕ) : Type 0 where
  pub part : ℕ
  pub from : i ≤ part
  pub greater : or_zero ys part < or_zero xs part
  pub same : (j : ℕ) → i ≤ j → j < part → or_zero xs j ≡ or_zero ys j

or_zero-past : (xs : List ℕ) (i : ℕ) → length xs ≤ i → or_zero xs i ≡ 0
or_zero-past [] i h = refl
or_zero-past (x ∷ xs) zero h = absurd (omega arith)
or_zero-past (x ∷ xs) (suc i) h = or_zero-past xs i (omega arith)

later :
    (xs ys : List ℕ) (i j : ℕ) (r : FirstGreater xs ys (i + 1))
    → or_zero xs i ≡ or_zero ys i
    → i ≤ j
    → j < r.part
    → or_zero xs j ≡ or_zero ys j
later xs ys i j r e l g = elim (Bool-cases (ltb i j)) [
  | inl y ↦ r.same j (ground (arith, y)) g
  | inr n ↦ subst (λ k. or_zero xs k ≡ or_zero ys k) (let f : i ≡ j = ground (arith, n, l) in f) e
]

newer-FirstGreater :
    (xs ys : List ℕ) (n i : ℕ) → compare_loop i n xs ys ≡ newer → FirstGreater xs ys i
unfolding compare_loop
newer-FirstGreater xs ys zero i h = let no : ⊥ = cc h in absurd no
newer-FirstGreater xs ys (suc n) i h = elim (Bool-cases (ltb (or_zero ys i) (or_zero xs i))) [
  | inl y ↦ record {
    part = i;
    from = omega arith;
    greater = ground (arith, y);
    same = λ j l g. absurd (omega arith);
  }
  | inr m ↦ elim (Bool-cases (ltb (or_zero xs i) (or_zero ys i))) [
    | inl y ↦ let no : ⊥ = cc (rw (m, y) at h) in absurd no
    | inr k ↦
        let r = newer-FirstGreater xs ys n (i + 1) (rw (m, k) at h) in
        record {
          part = r.part;
          from = omega (arith, r.from);
          greater = r.greater;
          same = λ j l g. later xs ys i j r (ground (arith, m, k)) l g;
        }
  ]
]

FirstGreater-newer :
    (xs ys : List ℕ) (n i : ℕ) (f : FirstGreater xs ys i)
    → f.part < i + n
    → compare_loop i n xs ys ≡ newer
unfolding compare_loop
FirstGreater-newer xs ys zero i f h = absurd (omega (arith, f.from))
FirstGreater-newer xs ys (suc n) i f h = elim (Bool-cases (ltb (or_zero ys i) (or_zero xs i))) [
  | inl y ↦ rw y refl
  | inr m ↦ elim (Bool-cases (ltb i f.part)) [
    | inl l ↦
        let same : or_zero xs i ≡ or_zero ys i = f.same i (omega arith) (ground (arith, l)) in
        let k : ltb (or_zero xs i) (or_zero ys i) ≡ false = ground (arith, same) in
        rw (m, k)
          (FirstGreater-newer xs ys n (i + 1)
            (record {
              part = f.part;
              from = ground (arith, l);
              greater = f.greater;
              same = λ j a b. f.same j (omega (arith, a)) b;
            })
            (omega (arith, h)))
    | inr l ↦
        let e : f.part ≡ i = ground (arith, l, f.from) in
        let g : or_zero ys i < or_zero xs i =
          subst (λ p. or_zero ys p < or_zero xs p) e f.greater in
        absurd (ground (arith, m, g))
  ]
]

greater-within : (xs ys : List ℕ) (k : ℕ) → or_zero ys k < or_zero xs k → k < 0 + max_length xs ys
greater-within xs ys k g = elim (Bool-cases (ltb k (length xs))) [
  | inl y ↦ ground (arith, y)
  | inr n ↦ let z = or_zero-past xs k (ground (arith, n)) in absurd (omega (arith, g, z))
]

no_difference : (xs : List ℕ) (i : ℕ) → FirstGreater xs xs i → ⊥
no_difference xs i f = omega (arith, f.greater)

module _ (trim_space : Bytes → Bytes) (scan : Bytes → Option ℕ) where
  pub compare_version-FirstGreater :
      (a b : Bytes)
      → (compare_version trim_space scan a b ≡ newer
          → FirstGreater (parse_version trim_space scan a) (parse_version trim_space scan b) 0)
        × (FirstGreater (parse_version trim_space scan a) (parse_version trim_space scan b) 0
            → compare_version trim_space scan a b ≡ newer)
  unfolding compare_version
  compare_version-FirstGreater a b =
      let xs = parse_version trim_space scan a in
      let ys = parse_version trim_space scan b in
      elim (Bool-cases (a == b)) [
        | inl y ↦
            let e : b ≡ a = sym ((==_iff a b).0 y) in
            (
              λ h. let no : ⊥ = cc (rw y at h) in absurd no,
              λ f. absurd (
                  no_difference xs 0
                    (subst (λ v. FirstGreater xs (parse_version trim_space scan v) 0) e f)),
            )
        | inr n ↦ (
          λ h. newer-FirstGreater xs ys (max_length xs ys) 0 (rw n at h),
          λ f. rw n (
              FirstGreater-newer xs ys (max_length xs ys) 0 f
                (greater-within xs ys f.part f.greater)),
        )
      ]

  -- If compareVersion answers that a is newer than b and b newer than c, it answers that a is
  -- newer than c.
  pub compare_version_trans :
      (a b c : Bytes)
      → compare_version trim_space scan a b ≡ newer
      → compare_version trim_space scan b c ≡ newer
      → compare_version trim_space scan a c ≡ newer
  compare_version_trans a b c h k =
      let f = (compare_version-FirstGreater a b).0 h in
      let g = (compare_version-FirstGreater b c).0 k in
      (compare_version-FirstGreater a c).1 (
        joined (parse_version trim_space scan a) (parse_version trim_space scan b)
          (parse_version trim_space scan c) f g)
    where
      joined :
          (xs ys zs : List ℕ) → FirstGreater xs ys 0 → FirstGreater ys zs 0 → FirstGreater xs zs 0
      joined xs ys zs f g = elim (Bool-cases (ltb f.part g.part)) [
        | inl y ↦
            let e : or_zero ys f.part ≡ or_zero zs f.part =
              g.same f.part (omega arith) (ground (arith, y)) in
            record {
              part = f.part;
              from = omega arith;
              greater = omega (arith, f.greater, e);
              same = λ j a l. f.same j a l ∙ g.same j a (ground (arith, y, l));
            }
        | inr n ↦ elim (Bool-cases (ltb g.part f.part)) [
          | inl y ↦
              let e : or_zero xs g.part ≡ or_zero ys g.part =
                f.same g.part (omega arith) (ground (arith, y)) in
              record {
                part = g.part;
                from = omega arith;
                greater = omega (arith, g.greater, e);
                same = λ j a l. f.same j a (ground (arith, y, l)) ∙ g.same j a l;
              }
          | inr m ↦
              let e : f.part ≡ g.part = ground (arith, n, m) in
              let q = subst (λ p. or_zero ys p < or_zero xs p) e f.greater in
              record {
                part = g.part;
                from = omega arith;
                greater = omega (arith, q, g.greater);
                same = λ j a l. f.same j a (omega (arith, e, l)) ∙ g.same j a l;
              }
        ]
      ]
