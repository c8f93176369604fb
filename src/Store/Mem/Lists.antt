-- ===== src/Store/Mem/Lists.antt =====
-- The lists of memBolt as a store of Store.Spec, with keys and values of any size.
use trailarr.Prelude.{
  ℕ, zero, suc, ◌+◌, ◌-◌, ◌≤◌, ◌<◌, ◌≡◌, refl, ap, ◌∙◌, sym, some, List, [], ◌∷◌, ◌++◌, length, set,
  Bytes, ==_iff, List-cases, Option-cases, inl, inr, arith,
}
use trailarr.Prelude.Int.{ℤ, pos, negsuc, ◌≤ℤ◌}
use trailarr.Prelude.Maps.{find-insert, find-erase, insert, erase}
use trailarr.Store.Outcome.{Outcome, ok, err, index_out_of_range}
use trailarr.Store.Range.{slice, cut, normalize_range, copy_loop}
use trailarr.Store.Range.Slices.{
  cut-slice, slice-empty, normalize_range_bounds, range_bounds-eq-normalize_range, copy_loop-cut,
}
use trailarr.Store.Spec.{ListStore, Replaced, IsListStore, remove_first, remove_count}
use trailarr.Store.Mem.{Mem, keep_list, list_at, rpush, lrange, ltrim, lset, lrem, del, remove_loop}

abbrev pub mem_store : ListStore
mem_store = record {
  State = Mem;
  view = list_at;
  IsValid = λ _. Unit {0};
  KeyFits = λ _. Unit {0};
  ValueFits = λ _. Unit {0};
  Room = λ _ _ _. Unit {0};
  lrange = lrange;
  rpush = rpush;
  ltrim = ltrim;
  lset = lset;
  lrem = lrem;
  del = del;
}

module _ (m : Mem) (k : Bytes) where
  -- A list that is written, and one that is dropped.
  written :
      (vs : List Bytes) (r : Outcome (Unit {0}) × Mem)
      → r ≡ (ok tt, record m { lists = insert k vs m.lists })
      → Replaced mem_store m k vs r
  written vs r e = record {
    returned = rw e;
    valid = tt;
    views = λ j. rw e (ground (arith, find-insert k j vs m.lists));
  }

  dropped :
      (vs : List Bytes) (r : Outcome (Unit {0}) × Mem)
      → vs ≡ []
      → r ≡ (ok tt, record m { lists = erase k m.lists })
      → Replaced mem_store m k vs r
  dropped vs r n e = record {
    returned = rw e;
    valid = tt;
    views = λ j. rw (e, n) (ground (arith, find-erase k j m.lists));
  }

  rpush_lem : (v : Bytes) → Replaced mem_store m k (list_at m k ++ v ∷ []) (rpush m k v)
  unfolding rpush
  rpush_lem v = written (list_at m k ++ v ∷ []) _ refl

copied :
    (xs : List Bytes) (a b : ℤ) (s e : ℕ)
    → normalize_range (length xs) a b ≡ some (s, e)
    → copy_loop xs s (e + 1 - s) ≡ some (slice xs a b)
copied xs a b s e h =
    let (l, u) = normalize_range_bounds (length xs) a b s e h in
    copy_loop-cut s (e + 1 - s) xs (omega arith) ∙ ap some (unfold cut in cut-slice xs a b s e h)

lrange_lem : (m : Mem) (k : Bytes) (a b : ℤ) → lrange m k a b ≡ ok (slice (list_at m k) a b)
unfolding lrange
lrange_lem m k a b = elim (Option-cases (normalize_range (length (list_at m k)) a b)) [
  | inl h ↦
      rw (range_bounds-eq-normalize_range (length (list_at m k)) a b ∙ h, lrange)
        (ap ok (sym (slice-empty (list_at m k) a b h)))
  | inr ((s, e), h) ↦ rw (
    range_bounds-eq-normalize_range (length (list_at m k)) a b ∙ h,
    copied (list_at m k) a b s e h,
    lrange,
  )
]

ltrim_lem :
    (m : Mem) (k : Bytes) (a b : ℤ)
    → Replaced mem_store m k (slice (list_at m k) a b) (ltrim m k a b)
unfolding ltrim
ltrim_lem m k a b = elim (Option-cases (normalize_range (length (list_at m k)) a b)) [
  | inl h ↦ dropped m k _ _ (slice-empty (list_at m k) a b h) (rw (h, ltrim))
  | inr ((s, e), h) ↦ written m k _ _ (rw (h, ltrim) (rw (copied (list_at m k) a b s e h)))
]

lset_lem :
    (m : Mem) (k : Bytes) (i : ℕ) (v : Bytes)
    → i < length (list_at m k)
    → Replaced mem_store m k (set (list_at m k) i v) (lset m k (pos i) v)
unfolding lset
lset_lem m k i v h = written m k _ _ (ground arith)

lset_above :
    (m : Mem) (k : Bytes) (i : ℕ) (v : Bytes)
    → length (list_at m k) ≤ i
    → lset m k (pos i) v ≡ (err index_out_of_range, m)
unfolding lset
lset_above m k i v h = ground arith

lset_negative :
    (m : Mem) (k : Bytes) (i : ℕ) (v : Bytes) → lset m k (negsuc i) v ≡ (err index_out_of_range, m)
unfolding lset
lset_negative m k i v = ground arith

remove_loop_done :
    (removed : ℕ) (count : ℤ) (target : Bytes) (vs : List Bytes)
    → count ≤ℤ pos removed
    → remove_loop removed count target vs ≡ vs
unfolding remove_loop
remove_loop_done removed count target [] h = refl
remove_loop_done removed count target (v ∷ vs) h =
    ground (arith, remove_loop_done removed count target vs h)

remove_first-zero : (target : Bytes) (vs : List Bytes) → remove_first 0 target vs ≡ vs
unfolding remove_first
remove_first-zero target [] = refl
remove_first-zero target (v ∷ vs) = refl

remove_loop-eq-remove_first :
    (removed count stop : ℕ) (target : Bytes) (vs : List Bytes)
    → removed + count ≡ stop
    → remove_loop removed (pos stop) target vs ≡ remove_first count target vs
unfolding remove_loop remove_first
remove_loop-eq-remove_first removed count stop target [] h = refl
remove_loop-eq-remove_first removed zero stop target (v ∷ vs) h =
    remove_loop_done removed (pos stop) target (v ∷ vs) (omega arith)
remove_loop-eq-remove_first removed (suc c) stop target (v ∷ vs) h = ground (
  arith,
  remove_loop-eq-remove_first (removed + 1) c stop target vs (omega arith),
  remove_loop-eq-remove_first removed (suc c) stop target vs h,
)

remove_loop-eq-remove_count :
    (count : ℤ) (target : Bytes) (vs : List Bytes)
    → remove_loop 0 count target vs ≡ remove_count count target vs
unfolding remove_count
remove_loop-eq-remove_count (pos c) target vs =
    remove_loop-eq-remove_first 0 c c target vs (omega arith)
remove_loop-eq-remove_count (negsuc c) target vs =
    remove_loop_done 0 (negsuc c) target vs (omega arith)

keep_list-Replaced :
    (m : Mem) (k : Bytes) (vs : List Bytes) → Replaced mem_store m k vs (ok tt, keep_list m k vs)
keep_list-Replaced m k [] = dropped m k [] _ refl refl
keep_list-Replaced m k (v ∷ vs) = written m k (v ∷ vs) _ refl

remove_count-nil : (c : ℤ) (v : Bytes) → remove_count c v [] ≡ []
unfolding remove_count remove_first
remove_count-nil (pos c) v = refl
remove_count-nil (negsuc c) v = refl

module _ (m : Mem) (k : Bytes) (c : ℤ) (v : Bytes) where
  lrem-nil :
      list_at m k ≡ [] → Replaced mem_store m k (remove_count c v (list_at m k)) (lrem m k c v)
  unfolding lrem
  lrem-nil e =
      rw (e, lrem)
        (rw (remove_count-nil c v)
          (record { returned = refl; valid = tt; views = λ j. ground (arith, ==_iff k j, e) }))

  lrem-cons :
      (x : Bytes) (vs : List Bytes)
      → list_at m k ≡ x ∷ vs
      → lrem m k c v ≡ (ok tt, keep_list m k (remove_count c v (list_at m k)))
  unfolding lrem
  lrem-cons x vs e = rw (← remove_loop-eq-remove_count c v (list_at m k)) (ground arith)

  lrem_lem : Replaced mem_store m k (remove_count c v (list_at m k)) (lrem m k c v)
  lrem_lem = elim (List-cases (list_at m k)) [
    | inl e ↦ lrem-nil e
    | inr (x, vs, e) ↦
        rw (lrem-cons x vs e) (keep_list-Replaced m k (remove_count c v (list_at m k)))
  ]

del_lem : (m : Mem) (k : Bytes) → Replaced mem_store m k [] (del m k)
unfolding del
del_lem m k = record {
  returned = refl;
  valid = tt;
  views = λ j. ground (arith, find-erase k j m.lists);
}

-- memBolt keeps the promise.
pub mem_store-IsListStore : IsListStore mem_store
mem_store-IsListStore = record {
  lrange_lem = λ m k a b _. lrange_lem m k a b;
  rpush_lem = λ m k v _ _ _ _. rpush_lem m k v;
  ltrim_lem = λ m k a b _. ltrim_lem m k a b;
  lset_lem = λ m k i v _ _ h. lset_lem m k i v h;
  lset_above = λ m k i v _ l. lset_above m k i v l;
  lset_negative = λ m k i v _. lset_negative m k i v;
  lrem_lem = λ m k c v _ _. lrem_lem m k c v;
  del_lem = λ m k _. del_lem m k;
  Room-rpush = λ _ _ _ _ _ _ _ _. tt;
  Room-suc = λ _ _ _ _. tt;
  Room-del = λ _ _ _ _ _. tt;
}
