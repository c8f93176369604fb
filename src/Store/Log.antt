-- ===== src/Store/Log.antt =====
-- A push followed by a trim to the last entries, on any store that keeps the promise.
use trailarr.Prelude.{ℕ, suc, ◌≡◌, refl, ap, ◌∙◌, subst, List, [], ◌∷◌, ◌++◌, Bytes, ==_refl, arith}
use trailarr.Prelude.Int.{ℤ, pos, negsuc}
use trailarr.Store.Outcome.{Outcome, ok, err}
use trailarr.Store.Range.{slice}
use trailarr.Store.Recent.{last_n, slice-last_n, slice-all}
use trailarr.Store.Spec.{ListStore, IsListStore, Replaced}

module _ (S : ListStore) where
  -- The trim follows a push that succeeded; its error is the caller's.
  abbrev pub then_trim : Bytes → ℤ → Outcome (Unit {0}) × S.State → Outcome (Unit {0}) × S.State
  then_trim key start (ok _, s) = S.ltrim s key start (negsuc 0)
  then_trim key start (err e, s) = (err e, s)

  module _ (laws : IsListStore S) where
    pub read_all :
        (s : S.State) (k : Bytes) → S.IsValid s → S.lrange s k (pos 0) (negsuc 0) ≡ ok (S.view s k)
    read_all s k h = laws.lrange_lem s k (pos 0) (negsuc 0) h ∙ ap ok (slice-all (S.view s k))

    -- Two replacements of the same list.
    pub Replaced-trans :
        (s : S.State) (k : Bytes) (vs ws : List Bytes) (r q : Outcome (Unit {0}) × S.State)
        → Replaced S s k vs r
        → Replaced S r.1 k ws q
        → Replaced S s k ws q
    Replaced-trans s k vs ws r q a b = record {
      returned = b.returned;
      valid = b.valid;
      views = λ j. ground (arith, a.views j, b.views j);
    }

    -- A call whose error is dropped, after the calls that made `t`.
    pub Replaced-next :
        (s t : S.State) (k : Bytes) (vs ws : List Bytes) (r : Outcome (Unit {0}) × S.State)
        → Replaced S s k vs (ok tt, t)
        → Replaced S t k ws r
        → Replaced S s k ws (ok tt, r.1)
    Replaced-next s t k vs ws r a b = record {
      returned = refl;
      valid = b.valid;
      views = λ j. ground (arith, a.views j, b.views j);
    }

    pub view-Replaced :
        (s : S.State) (k : Bytes) (vs : List Bytes) (r : Outcome (Unit {0}) × S.State)
        → Replaced S s k vs r
        → S.view r.1 k ≡ vs
    view-Replaced s k vs r a = a.views k ∙ (rw (==_refl k) refl)

    then_trim-Replaced :
        (n : ℕ) (s : S.State) (k : Bytes) (vs : List Bytes) (r : Outcome (Unit {0}) × S.State)
        → Replaced S s k vs r
        → Replaced S s k (last_n (suc n) vs) (then_trim k (negsuc n) r)
    then_trim-Replaced n s k vs (err e, s1) a = let no : ⊥ = cc a.returned in absurd no
    then_trim-Replaced n s k vs (ok _, s1) a =
        let t = laws.ltrim_lem s1 k (negsuc n) (negsuc 0) a.valid in
        let e : slice (S.view s1 k) (negsuc n) (negsuc 0) ≡ last_n (suc n) vs =
          slice-last_n n (S.view s1 k) ∙ ap (last_n (suc n)) (view-Replaced s k vs (ok tt, s1) a) in
        Replaced-trans s k vs (last_n (suc n) vs) (ok tt, s1) (S.ltrim s1 k (negsuc n) (negsuc 0)) a
          (subst (λ ws. Replaced S s1 k ws (S.ltrim s1 k (negsuc n) (negsuc 0))) e t)

    -- Push, then keep the last n + 1.
    pub logged :
        (n : ℕ) (s : S.State) (k v : Bytes)
        → S.IsValid s
        → S.KeyFits k
        → S.ValueFits v
        → S.Room s k 1
        → Replaced S s k
            (last_n (suc n) (S.view s k ++ v ∷ []))
            (then_trim k (negsuc n) (S.rpush s k v))
    logged n s k v h a b c =
        then_trim-Replaced n s k (S.view s k ++ v ∷ []) (S.rpush s k v)
          (laws.rpush_lem s k v h a b c)
