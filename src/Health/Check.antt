-- ===== src/Health/Check.antt =====
-- runHealthCheckTask: the stored issues, and what is answered from them.
use trailarr.Prelude.{
  ℕ, ◌≤◌, ◌-◌, ◌≡◌, refl, ap, subst, ◌∙◌, ◌||◌, Option, some, List, [], ◌∷◌, map, length,
  length-append, length-map, Bytes, bytes, ◌==◌, arith, Bool-cases, Option-cases, inl, inr,
}
use trailarr.Prelude.Int.{negsuc}
use trailarr.Store.Outcome.{ok}
use trailarr.Store.Recent.{last_n}
use trailarr.Store.Spec.{ListStore, IsListStore, Replaced}
use trailarr.Store.Log.{read_all, view-Replaced}
use trailarr.Store.Rewrite.{push_each, AllFit, rewritten, trimmed}
use trailarr.Json.{Codec, Holds, decode_all, decode_all-Holds}
use trailarr.Health.{
  HealthMsg, health_issues_store_key, Connection, Test, provider_issues, build_health, encodings,
  issue_values, values_or_nil, store_issues, run_health_check_task, Executed, success, issues_found,
  executed, handle_health_execute,
}

at_most_one :
    (test : Test) (source provider : Bytes) (c : Connection)
    → length (provider_issues test source provider c) ≤ 1
unfolding provider_issues
at_most_one test source provider c = elim (Bool-cases (c.url == [] || c.api_key == [])) [
  | inl y ↦ rw y (omega arith)
  | inr n ↦ rw n (elim (Option-cases (test c.url c.api_key provider)) [
    | inl e ↦ rw e (omega arith)
    | inr (x, e) ↦ rw e (omega arith)
  ])
]

at_most_two :
    (test : Test) (radarr sonarr : Connection) → length (build_health test radarr sonarr) ≤ 2
unfolding build_health
at_most_two test radarr sonarr = omega (
  arith,
  length-append (provider_issues test (bytes "Radarr") (bytes "radarr") radarr)
      (provider_issues test (bytes "Sonarr") (bytes "sonarr") sonarr),
  at_most_one test (bytes "Radarr") (bytes "radarr") radarr,
  at_most_one test (bytes "Sonarr") (bytes "sonarr") sonarr,
)

last_n-short {ℓ} : {A : Type ℓ} (n : ℕ) (xs : List A) → length xs ≤ n → last_n n xs ≡ xs
unfolding last_n
last_n-short n xs h = let e : length xs - n ≡ 0 = omega arith in rw e refl

-- The answer that the issues call for.
abbrev pub verdict : List HealthMsg → Executed
verdict [] = success
verdict (h ∷ issues) = issues_found

module _ (S : ListStore) (laws : IsListStore S) (C : Codec HealthMsg) where
  encodings-all :
      (issues : List HealthMsg) (bs : List Bytes)
      → map C.marshal issues ≡ map some bs
      → encodings S C issues ≡ bs
  unfolding encodings
  encodings-all [] [] h = refl
  encodings-all [] (b ∷ bs) h = let no : ⊥ = cc h in absurd no
  encodings-all (x ∷ issues) [] h = let no : ⊥ = cc h in absurd no
  encodings-all (x ∷ issues) (b ∷ bs) h =
      let head : C.marshal x ≡ some b = cc h in
      let tail : map C.marshal issues ≡ map some bs = cc h in
      rw (encodings, head) (ap (◌∷◌ b) (encodings-all issues bs tail))

  -- At most 100 issues replace the stored list.
  stored :
      (s : S.State) (issues : List HealthMsg) (bs : List Bytes)
      → S.IsValid s
      → S.KeyFits health_issues_store_key
      → AllFit S bs
      → map C.marshal issues ≡ map some bs
      → length bs ≤ 100
      → Replaced S s health_issues_store_key bs (ok tt, store_issues S C s issues)
  unfolding store_issues
  stored s [] [] h k f e l =
      let d = laws.del_lem s health_issues_store_key h in
      record { returned = refl; valid = d.valid; views = d.views }
  stored s [] (b ∷ bs) h k f e l = let no : ⊥ = cc e in absurd no
  stored s (x ∷ issues) bs h k f e l =
      let key = health_issues_store_key in
      let t = push_each S key (S.del s key).1 bs in
      rw (store_issues, encodings-all (x ∷ issues) bs e)
        (subst (λ vs. Replaced S s key vs (ok tt, (S.ltrim t key (negsuc 99) (negsuc 0)).1))
          (last_n-short 100 bs l)
          (trimmed S laws key k 99 s t bs (rewritten S laws key k s bs h f (omega arith))))

  executed-verdict :
      (issues : List HealthMsg) (bs : List Bytes)
      → map C.marshal issues ≡ map some bs
      → executed (ok bs) ≡ verdict issues
  executed-verdict [] [] h = refl
  executed-verdict [] (b ∷ bs) h = let no : ⊥ = cc h in absurd no
  executed-verdict (x ∷ issues) [] h = let no : ⊥ = cc h in absurd no
  executed-verdict (x ∷ issues) (b ∷ bs) h = refl

  -- After a check that found `issues`.
  pub record Checked (s : S.State) (issues : List HealthMsg) (bs : List Bytes)
      (r : Executed × S.State) : Type 0 where
    pub list : Replaced S s health_issues_store_key bs (ok tt, r.1)
    pub answer : r.0 ≡ verdict issues
    pub shown : decode_all C (issue_values S C r.1) ≡ issues

  -- On a store that keeps the promise, with encodings of the issues that fit and decode: the check
  -- replaces the stored issues by those it found, answers success exactly if it found none, and
  -- the stored entries decode to them.
  pub handle_health_execute-Checked :
      (test : Test) (radarr sonarr : Connection) (s : S.State) (bs : List Bytes)
      → S.IsValid s
      → S.KeyFits health_issues_store_key
      → AllFit S bs
      → map C.marshal (build_health test radarr sonarr) ≡ map some bs
      → Holds C bs (build_health test radarr sonarr)
      → Checked s
          (build_health test radarr sonarr)
          bs
          (handle_health_execute S C test radarr sonarr s)
  unfolding handle_health_execute run_health_check_task
  handle_health_execute-Checked test radarr sonarr s bs h k f e d =
      let issues = build_health test radarr sonarr in
      let short : length bs ≤ 2 = omega (
        arith,
        at_most_two test radarr sonarr,
        length-map C.marshal issues,
        length-map {B = Option Bytes} some bs,
        ap length e,
      ) in
      let key = health_issues_store_key in
      let t = store_issues S C s issues in
      let a = stored s issues bs h k f e (omega (arith, short)) in
      let seen =
        read_all S laws t key a.valid ∙ ap ok (view-Replaced S laws s key bs (ok tt, t) a) in
      record {
        list = a;
        answer = ap executed seen ∙ executed-verdict issues bs e;
        shown = ap (λ o. decode_all C (values_or_nil S C o)) seen ∙ decode_all-Holds C bs issues d;
      }
