-- ===== src/Health/Provider.antt =====
-- The issues of one provider, stored after a test that fails and cleared after one that succeeds.
use trailarr.Prelude.{
  ◌<◌, ◌^◌, ◌+◌, ◌-◌, ◌≡◌, refl, sym, ap, subst, ◌∙◌, Bool, true, not, some, List, [], ◌∷◌, ◌++◌,
  ==_iff, length-drop, length, length-append, Bytes, ==_refl, arith,
}
use trailarr.Slices.{filter}
use trailarr.Slices.Filtered.{length-filter, AllPass-filter, AllPass-drop, filter-last}
use trailarr.Store.Outcome.{ok}
use trailarr.Store.Recent.{last_n, stay, last_n-append}
use trailarr.Store.Spec.{ListStore, IsListStore, Replaced}
use trailarr.Store.Log.{read_all, view-Replaced, Replaced-next}
use trailarr.Store.Rewrite.{
  push_each, push_each-append, AllFit, AllFit-filter, AllFit-append, AllFit-drop, rewritten,
  trimmed,
}
use trailarr.Json.{Codec, Encodes}
use trailarr.Health.{
  HealthMsg, health_issues_store_key, Unicode, capitalize, issue_values, values_or_nil, is_of,
  keep_others, provider_issue, cleared, persist_provider_health_issue, clear_provider_health_issues,
}

module _ (S : ListStore) (laws : IsListStore S) (C : Codec HealthMsg) (U : Unicode) where
  abbrev key : Bytes
  key = health_issues_store_key

  read_values : (s : S.State) → S.IsValid s → issue_values S C s ≡ S.view s key
  read_values s h = ap (values_or_nil S C) (read_all S laws s key h)

  is_of-issue :
      (provider e b : Bytes)
      → C.unmarshal b ≡ some (provider_issue S C U provider e)
      → U.to_lower (capitalize U provider) ≡ provider
      → is_of S C U provider b ≡ true
  unfolding is_of provider_issue
  is_of-issue provider e b h low = rw (is_of, h, low) (==_refl provider)

  -- On a store that keeps the promise, with entries and an encoding of the issue that fit and
  -- fewer than 2^64 - 1 entries: after a failed test the list holds the entries that are not
  -- issues of the provider, in order, and then the new one, the last 100 of them; no other list
  -- changes.
  pub persist_provider-Replaced :
      (provider e b : Bytes) (s : S.State)
      → S.IsValid s
      → S.KeyFits health_issues_store_key
      → AllFit S (S.view s health_issues_store_key)
      → S.ValueFits b
      → C.marshal (provider_issue S C U provider e) ≡ some b
      → length (S.view s health_issues_store_key) + 1 < 2 ^ 64
      → Replaced S s health_issues_store_key
          (last_n 100 (keep_others S C U provider (S.view s health_issues_store_key) ++ b ∷ []))
          (ok tt, persist_provider_health_issue S C U provider e s)
  unfolding persist_provider_health_issue keep_others
  persist_provider-Replaced provider e b s h k f g m l =
      let kept = keep_others S C U provider (S.view s key) in
      let fits =
        AllFit-append S kept b
          (AllFit-filter S (S.view s key) (λ v. not (is_of S C U provider v)) f) g in
      let short = length-filter (S.view s key) (λ v. not (is_of S C U provider v)) in
      let t = (S.rpush (push_each S key (S.del s key).1 kept) key b).1 in
      let r : Replaced S s key (kept ++ b ∷ []) (ok tt, t) =
        subst (λ u. Replaced S s key (kept ++ b ∷ []) (ok tt, u))
          (push_each-append S key (S.del s key).1 kept b)
          (rewritten S laws key k s (kept ++ b ∷ []) h fits
            (omega (arith, length-append kept (b ∷ []), short))) in
      rw (persist_provider_health_issue, m, read_values s h)
        (trimmed S laws key k 99 s t (kept ++ b ∷ []) r)

  pub clear_provider-Replaced :
      (provider : Bytes) (s : S.State)
      → S.IsValid s
      → S.KeyFits health_issues_store_key
      → AllFit S (S.view s health_issues_store_key)
      → length (S.view s health_issues_store_key) < 2 ^ 64
      → Replaced S s health_issues_store_key
          (keep_others S C U provider (S.view s health_issues_store_key))
          (ok tt, clear_provider_health_issues S C U provider s)
  unfolding clear_provider_health_issues keep_others filter cleared
  clear_provider-Replaced provider s h k f l = rw (read_values s h) (go (S.view s key) refl)
    where
      go :
          (vals : List Bytes)
          → S.view s key ≡ vals
          → Replaced S s key
              (keep_others S C U provider vals)
              (ok tt, cleared S C U provider s vals)
      go [] e = record { returned = refl; valid = h; views = λ j. ground (arith, ==_iff key j, e) }
      go (v ∷ vals) e =
          let short = length-filter (v ∷ vals) (λ x. not (is_of S C U provider x)) in
          rewritten S laws key k s (keep_others S C U provider (v ∷ vals)) h
            (AllFit-filter S (v ∷ vals) (λ x. not (is_of S C U provider x)) (subst (AllFit S) e f))
            (omega (arith, short, ap length e))

  -- On a store that keeps the promise, with entries and an encoding of the issue that fit and
  -- fewer than 2^64 - 1 entries, if the new issue decodes and its source in small letters is the
  -- provider: storing an issue after a failed test and clearing the provider's issues after that
  -- leaves of the entries that are not its issues the last 99.
  pub clear-persist_provider :
      (provider e b : Bytes) (s : S.State)
      → S.IsValid s
      → S.KeyFits health_issues_store_key
      → AllFit S (S.view s health_issues_store_key)
      → S.ValueFits b
      → Encodes C (provider_issue S C U provider e) b
      → U.to_lower (capitalize U provider) ≡ provider
      → length (S.view s health_issues_store_key) + 1 < 2 ^ 64
      → Replaced S s health_issues_store_key
          (last_n 99 (keep_others S C U provider (S.view s health_issues_store_key)))
          (
            ok tt,
            clear_provider_health_issues S C U provider
                (persist_provider_health_issue S C U provider e s),
          )
  unfolding keep_others last_n
  clear-persist_provider provider e b s h k f g c low l =
      let keep : Bytes → Bool = λ v. not (is_of S C U provider v) in
      let kept = keep_others S C U provider (S.view s key) in
      let t = persist_provider_health_issue S C U provider e s in
      let first = persist_provider-Replaced provider e b s h k f g c.written l in
      let seen : S.view t key ≡ stay 99 kept ++ b ∷ [] =
        view-Replaced S laws s key (last_n 100 (kept ++ b ∷ [])) (ok tt, t) first
        ∙ last_n-append 99 kept b in
      let small : length (S.view t key) < 2 ^ 64 = omega (
        arith,
        ap length seen,
        length-append (stay 99 kept) (b ∷ []),
        length-drop (length kept - 99) kept,
        length-filter (S.view s key) keep,
      ) in
      let fits : AllFit S (S.view t key) = subst (AllFit S) (sym seen) (
        AllFit-append S (stay 99 kept) b
          (AllFit-drop S (length kept - 99) kept (AllFit-filter S (S.view s key) keep f)) g) in
      let second = clear_provider-Replaced provider t first.valid k fits small in
      let mine : is_of S C U provider b ≡ true = is_of-issue provider e b c.read low in
      let e : keep_others S C U provider (S.view t key) ≡ stay 99 kept =
        ap (keep_others S C U provider) seen
        ∙ filter-last keep (stay 99 kept) b
            (AllPass-drop keep (length kept - 99) kept (AllPass-filter keep (S.view s key)))
            (ap not mine) in
      Replaced-next S laws s t key (last_n 100 (kept ++ b ∷ [])) (stay 99 kept)
        (ok tt, clear_provider_health_issues S C U provider t) first
        (subst (λ vs. Replaced S t key vs (ok tt, clear_provider_health_issues S C U provider t)) e
          second)
