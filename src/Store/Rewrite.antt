-- ===== src/Store/Rewrite.antt =====
-- A list that is deleted and pushed again entry by entry, on any store that keeps the promise.
use trailarr.Prelude.{
  arith, refl, if◌then◌else◌, ==_iff, ℕ, zero, suc, ◌<◌, ◌^◌, ◌≡◌, refl, sym, subst, List, [], ◌∷◌,
  ◌++◌, length, drop, Bytes, Bool, true, false, if◌then◌else◌,
}
use mathlib.Core.List.{append_assoc, append-nil}
use trailarr.Slices.{filter}
use trailarr.Store.Outcome.{ok}
use trailarr.Store.Recent.{last_n, slice-last_n}
use trailarr.Prelude.Int.{negsuc}
use trailarr.Store.Spec.{ListStore, IsListStore, Replaced}
use trailarr.Store.Log.{Replaced-next, view-Replaced}

module _ (S : ListStore) where
  -- `for _, v := range vs { _ = client.RPush(ctx, key, v) }`
  unfoldable pub push_each : Bytes → S.State → List Bytes → S.State
  push_each key s [] = s
  push_each key s (v ∷ vs) = push_each key (S.rpush s key v).1 vs

  abbrev pub AllFit : List Bytes → Type 0
  AllFit [] = Unit
  AllFit (v ∷ vs) = S.ValueFits v × AllFit vs

  pub AllFit-filter : (vs : List Bytes) (keep : Bytes → Bool) → AllFit vs → AllFit (filter vs keep)
  unfolding filter
  AllFit-filter [] keep f = tt
  AllFit-filter (v ∷ vs) keep (f, fs) = go (keep v) (AllFit-filter vs keep fs)
    where
      go :
          (b : Bool)
          → AllFit (filter vs keep)
          → AllFit (if b then v ∷ filter vs keep else filter vs keep)
      go true r = (f, r)
      go false r = r

  pub AllFit-append :
      (vs : List Bytes) (b : Bytes) → AllFit vs → S.ValueFits b → AllFit (vs ++ b ∷ [])
  AllFit-append [] b f g = (g, tt)
  AllFit-append (v ∷ vs) b (f, fs) g = (f, AllFit-append vs b fs g)

  pub AllFit-drop : (n : ℕ) (vs : List Bytes) → AllFit vs → AllFit (drop n vs)
  AllFit-drop zero vs f = f
  AllFit-drop (suc n) [] f = tt
  AllFit-drop (suc n) (v ∷ vs) (f, fs) = AllFit-drop n vs fs

  pub push_each-append :
      (key : Bytes) (s : S.State) (vs : List Bytes) (b : Bytes)
      → push_each key s (vs ++ b ∷ []) ≡ (S.rpush (push_each key s vs) key b).1
  unfolding push_each
  push_each-append key s [] b = refl
  push_each-append key s (v ∷ vs) b = push_each-append key (S.rpush s key v).1 vs b

  module _ (laws : IsListStore S) (key : Bytes) (kfits : S.KeyFits key) where
    pushed :
        (s t : S.State) (vs bs : List Bytes)
        → AllFit bs
        → S.Room t key (length bs)
        → Replaced S s key vs (ok tt, t)
        → Replaced S s key (vs ++ bs) (ok tt, push_each key t bs)
    unfolding push_each
    pushed s t vs [] f room a = subst (λ xs. Replaced S s key xs (ok tt, t)) (sym (append-nil vs)) a
    pushed s t vs (b ∷ bs) (f, fs) room a =
        let seen = view-Replaced S laws s key vs (ok tt, t) a in
        let p = laws.rpush_lem t key b a.valid kfits f (laws.Room-suc t key (length bs) room) in
        let next : Replaced S s key (vs ++ b ∷ []) (ok tt, (S.rpush t key b).1) =
          Replaced-next S laws s t key vs (vs ++ b ∷ []) (S.rpush t key b) a
            (subst (λ xs. Replaced S t key (xs ++ b ∷ []) (S.rpush t key b)) seen p) in
        subst (λ xs. Replaced S s key xs (ok tt, push_each key (S.rpush t key b).1 bs))
          (append_assoc vs (b ∷ []) bs)
          (pushed s (S.rpush t key b).1 (vs ++ b ∷ []) bs fs
            (laws.Room-rpush t key b (length bs) a.valid kfits f room) next)

    -- A push of each of `bs`.
    pub appended :
        (s : S.State) (bs : List Bytes)
        → S.IsValid s
        → AllFit bs
        → S.Room s key (length bs)
        → Replaced S s key (S.view s key ++ bs) (ok tt, push_each key s bs)
    appended s bs h f room =
        pushed s s (S.view s key) bs f room
          (record { returned = refl; valid = h; views = λ j. ground (arith, ==_iff key j) })

    -- Del, then a push of each of `bs`.
    pub rewritten :
        (s : S.State) (bs : List Bytes)
        → S.IsValid s
        → AllFit bs
        → length bs < 2 ^ 64
        → Replaced S s key bs (ok tt, push_each key (S.del s key).1 bs)
    rewritten s bs h f l =
        let d = laws.del_lem s key h in
        pushed s (S.del s key).1 [] bs f (laws.Room-del s key (length bs) h l)
          (record { returned = refl; valid = d.valid; views = d.views })

    -- A trim to the last n + 1, whose error is dropped.
    pub trimmed :
        (n : ℕ) (s t : S.State) (vs : List Bytes)
        → Replaced S s key vs (ok tt, t)
        → Replaced S s key (last_n (suc n) vs) (ok tt, (S.ltrim t key (negsuc n) (negsuc 0)).1)
    trimmed n s t vs a =
        let l = laws.ltrim_lem t key (negsuc n) (negsuc 0) a.valid in
        let seen = view-Replaced S laws s key vs (ok tt, t) a in
        Replaced-next S laws s t key vs (last_n (suc n) vs) (S.ltrim t key (negsuc n) (negsuc 0)) a
          (subst (λ xs. Replaced S t key (last_n (suc n) xs) (S.ltrim t key (negsuc n) (negsuc 0)))
            seen
            (subst (λ xs. Replaced S t key xs (S.ltrim t key (negsuc n) (negsuc 0)))
              (slice-last_n n (S.view t key)) l))
