-- ===== src/Store/Commands.antt =====
-- Sequences of list calls, run on any back end, and their replies.
pub mod Backends
use trailarr.Prelude.{◌≡◌, refl, ap, ◌∙◌, sym, List, [], ◌∷◌, length, Bytes, arith, ◌++◌, set}
use native.Mathlib.Decide.{dec_lt}
use trailarr.Prelude.Int.{ℤ, pos, negsuc}
use trailarr.Store.Outcome.{Outcome, ok, err}
use trailarr.Store.Range.{slice}
use trailarr.Store.Spec.{ListStore, IsListStore, Replaced, remove_count}

pub data ListCommand : Type 0 where
  pushes : Bytes → Bytes → ListCommand
  trims reads : Bytes → ℤ → ℤ → ListCommand
  sets removes : Bytes → ℤ → Bytes → ListCommand
  deletes : Bytes → ListCommand

-- A call that returns only an error replies with no values.
abbrev pub reply {ℓ} : {S : Type ℓ} → Outcome (Unit {0}) × S → Outcome (List Bytes) × S
reply (ok _, s) = (ok [], s)
reply (err e, s) = (err e, s)

module _ (S : ListStore) where
  unfoldable pub step : S.State → ListCommand → Outcome (List Bytes) × S.State
  step s (pushes k v) = reply (S.rpush s k v)
  step s (trims k a b) = reply (S.ltrim s k a b)
  step s (reads k a b) = (S.lrange s k a b, s)
  step s (sets k i v) = reply (S.lset s k i v)
  step s (removes k c v) = reply (S.lrem s k c v)
  step s (deletes k) = reply (S.del s k)

  unfoldable pub replies : S.State → List ListCommand → List (Outcome (List Bytes))
  unfolding step
  replies s [] = []
  replies s (c ∷ cs) = (step s c).0 ∷ replies (step s c).1 cs

  -- What the back end needs of a call: sizes that fit and a place for a new entry.
  abbrev pub Allowed : S.State → ListCommand → Type 0
  Allowed s (pushes k v) = S.KeyFits k × S.ValueFits v × S.Room s k 1
  Allowed s (sets k i v) = S.ValueFits v
  Allowed s (removes k c v) = S.KeyFits k
  Allowed s _ = Unit {0}

  abbrev pub AllAllowed : S.State → List ListCommand → Type 0
  AllAllowed s [] = Unit {0}
  AllAllowed s (c ∷ cs) = Allowed s c × AllAllowed (step s c).1 cs

-- The contents of two stores, whatever holds them.
module _ (S T : ListStore) where
  pub record Agree (s : S.State) (t : T.State) : Type 0 where
    pub left : S.IsValid s
    pub right : T.IsValid t
    pub views : (k : Bytes) → S.view s k ≡ T.view t k

  -- Two results that agree: the same reply, and stores that agree.
  pub record Match (r : Outcome (List Bytes) × S.State) (q : Outcome (List Bytes) × T.State)
      : Type 0 where
    pub same : r.0 ≡ q.0
    pub agree : Agree r.1 q.1

  Match-Replaced :
      (s : S.State) (t : T.State) (k : Bytes) (vs ws : List Bytes)
      (r : Outcome (Unit {0}) × S.State) (q : Outcome (Unit {0}) × T.State)
      → Agree s t
      → vs ≡ ws
      → Replaced S s k vs r
      → Replaced T t k ws q
      → Match (reply r) (reply q)
  Match-Replaced s t k vs ws (ok _, s') (ok _, t') h e a b = record {
    same = refl;
    agree = record {
      left = a.valid;
      right = b.valid;
      views = λ j. ground (arith, a.views j, b.views j, h.views j);
    };
  }
  Match-Replaced s t k vs ws (err x, s') q h e a b = let no : ⊥ = cc a.returned in absurd no
  Match-Replaced s t k vs ws (ok _, s') (err y, t') h e a b =
      let no : ⊥ = cc b.returned in absurd no

  module _ (s_laws : IsListStore S) (t_laws : IsListStore T) where
    sets-Match :
        (s : S.State) (t : T.State) (k v : Bytes) (i : ℤ)
        → Agree s t
        → S.ValueFits v
        → T.ValueFits v
        → Match (reply (S.lset s k i v)) (reply (T.lset t k i v))
    sets-Match s t k v (negsuc i) h a b =
        rw (s_laws.lset_negative s k i v h.left, t_laws.lset_negative t k i v h.right)
          (record { same = refl; agree = h })
    sets-Match s t k v (pos i) h a b = elim (dec_lt i (length (S.view s k))) [
      | yes l ↦
          Match-Replaced s t k _ _ _ _ h (ap (λ vs. set vs i v) (h.views k))
            (s_laws.lset_lem s k i v h.left a l)
            (t_laws.lset_lem t k i v h.right b (rw (← h.views k) l))
      | no l ↦
          rw
            (
              s_laws.lset_above s k i v h.left (omega arith),
              t_laws.lset_above t k i v h.right (rw (← h.views k) (omega arith)),
            )
            (record { same = refl; agree = h })
    ]

    -- One call on stores that agree: the same reply, and the stores still agree.
    pub step-Match :
        (s : S.State) (t : T.State) (c : ListCommand)
        → Agree s t
        → Allowed S s c
        → Allowed T t c
        → Match (step S s c) (step T t c)
    unfolding step
    step-Match s t (pushes k v) h (a, b, c) (d, e, f) =
        Match-Replaced s t k _ _ _ _ h (ap (λ vs. vs ++ v ∷ []) (h.views k))
          (s_laws.rpush_lem s k v h.left a b c) (t_laws.rpush_lem t k v h.right d e f)
    step-Match s t (trims k a b) h _ _ =
        Match-Replaced s t k _ _ _ _ h (ap (λ vs. slice vs a b) (h.views k))
          (s_laws.ltrim_lem s k a b h.left) (t_laws.ltrim_lem t k a b h.right)
    step-Match s t (reads k a b) h _ _ = record {
      same =
          s_laws.lrange_lem s k a b h.left
          ∙ ap (λ vs. ok (slice vs a b)) (h.views k)
          ∙ sym (t_laws.lrange_lem t k a b h.right);
      agree = h;
    }
    step-Match s t (sets k i v) h a b = sets-Match s t k v i h a b
    step-Match s t (removes k c v) h a b =
        Match-Replaced s t k _ _ _ _ h (ap (remove_count c v) (h.views k))
          (s_laws.lrem_lem s k c v h.left a) (t_laws.lrem_lem t k c v h.right b)
    step-Match s t (deletes k) h _ _ =
        Match-Replaced s t k _ _ _ _ h refl (s_laws.del_lem s k h.left) (t_laws.del_lem t k h.right)

    -- Two list stores that keep the promise and hold the same lists give the same replies to every
    -- sequence of calls that both allow (names and values that fit, room for each push).
    pub replies-Agree :
        (s : S.State) (t : T.State) (cs : List ListCommand)
        → Agree s t
        → AllAllowed S s cs
        → AllAllowed T t cs
        → replies S s cs ≡ replies T t cs
    unfolding replies
    replies-Agree s t [] h _ _ = refl
    replies-Agree s t (c ∷ cs) h (a, as_) (b, bs) =
        let m = step-Match s t c h a b in
        let rest = replies-Agree (step S s c).1 (step T t c).1 cs m.agree as_ bs in
        cc (m.same, rest)
