-- ===== src/Health.antt =====
-- The health issues: buildHealth and SystemStatusHandler of internal/status.go, runHealthCheckTask of
-- internal/tasks.go, and the handlers of internal/routes.go that run a check. The test of a connection
-- and unicode are arguments; an error is its text.
pub mod Check
pub mod Provider
use trailarr.Prelude.{
  ℕ, Bool, true, false, ◌||◌, not, Option, none, some, List, [], ◌∷◌, ◌++◌, drop, Bytes, bytes,
  ◌==◌, if◌then◌else◌,
}
use trailarr.Prelude.Int.{pos, negsuc}
use trailarr.Slices.{filter}
use trailarr.Store.Outcome.{Outcome, ok, err}
use trailarr.Store.Spec.{ListStore}
use trailarr.Store.Rewrite.{push_each}
use trailarr.Json.{Codec, decode_all}

pub record HealthMsg : Type 0 where
  pub message : Bytes
  pub source : Bytes
  pub level : Bytes

-- HealthIssuesStoreKey
abbrev pub health_issues_store_key : Bytes
health_issues_store_key = bytes "trailarr:health_issues"

-- What GetProviderUrlAndApiKey answers; both are empty after an error.
pub record Connection : Type 0 where
  pub url : Bytes
  pub api_key : Bytes

-- testMediaConnection for url, key and provider: none stands for nil.
abbrev pub Test : Type 0
Test = Bytes → Bytes → Bytes → Option Bytes

abbrev error_of : Bytes → Bytes → HealthMsg
error_of source message = record { message = message; source = source; level = bytes "error" }

abbrev failed_test : Bytes → Option Bytes → List HealthMsg
failed_test source none = []
failed_test source (some e) = error_of source (source ++ bytes " connectivity failed: " ++ e) ∷ []

-- The issues of one provider.
unfoldable pub provider_issues : Test → Bytes → Bytes → Connection → List HealthMsg
provider_issues test source provider c =
    if c.url == [] || c.api_key == []
    then error_of source (source ++ bytes " not configured (missing URL or API key)") ∷ []
    else failed_test source (test c.url c.api_key provider)

-- buildHealth, and the first half of runHealthCheckTask.
unfoldable pub build_health : Test → Connection → Connection → List HealthMsg
unfolding provider_issues
build_health test radarr sonarr =
    provider_issues test (bytes "Radarr") (bytes "radarr") radarr
    ++ provider_issues test (bytes "Sonarr") (bytes "sonarr") sonarr

-- utf8.DecodeRuneInString (the rune and its size), unicode.ToUpper, string(r) and strings.ToLower.
pub record Unicode : Type 0 where
  pub decode_rune : Bytes → ℕ × ℕ
  pub to_upper : ℕ → ℕ
  pub encode_rune : ℕ → Bytes
  pub to_lower : Bytes → Bytes

module _ (U : Unicode) where
  -- capitalize
  unfoldable pub capitalize : Bytes → Bytes
  capitalize [] = []
  capitalize (b ∷ s) =
      let (r, size) = U.decode_rune (b ∷ s) in U.encode_rune (U.to_upper r) ++ drop size (b ∷ s)

-- The answer of handleHealthExecute: success, or an error of the store or "issues found".
pub data Executed : Type 0 where
  success : Executed
  issues_found : Executed
  unreadable : Executed

abbrev pub executed : Outcome (List Bytes) → Executed
executed (err e) = unreadable
executed (ok []) = success
executed (ok (v ∷ vals)) = issues_found

module _ (S : ListStore) (C : Codec HealthMsg) where
  abbrev pub values_or_nil : Outcome (List Bytes) → List Bytes
  values_or_nil (ok vals) = vals
  values_or_nil (err e) = []

  abbrev pub issue_values : S.State → List Bytes
  issue_values s = values_or_nil (S.lrange s health_issues_store_key (pos 0) (negsuc 0))

  -- The encodings of the issues, less those without one.
  unfoldable pub encodings : List HealthMsg → List Bytes
  encodings [] = []
  encodings (h ∷ issues) = elim (C.marshal h) [
    | none ↦ encodings issues
    | some b ↦ b ∷ encodings issues
  ]

  -- The rest of runHealthCheckTask: all errors of the store are dropped.
  unfoldable pub store_issues : S.State → List HealthMsg → S.State
  unfolding push_each encodings
  store_issues s [] = (S.del s health_issues_store_key).1
  store_issues s (h ∷ issues) =
      let pushed =
        push_each S health_issues_store_key (S.del s health_issues_store_key).1
          (encodings (h ∷ issues)) in
      (S.ltrim pushed health_issues_store_key (negsuc 99) (negsuc 0)).1

  unfoldable pub run_health_check_task : Test → Connection → Connection → S.State → S.State
  unfolding store_issues build_health
  run_health_check_task test radarr sonarr s = store_issues s (build_health test radarr sonarr)

  unfoldable pub handle_health_execute :
      Test → Connection → Connection → S.State → Executed × S.State
  unfolding run_health_check_task
  handle_health_execute test radarr sonarr s =
      let t = run_health_check_task test radarr sonarr s in
      (executed (S.lrange t health_issues_store_key (pos 0) (negsuc 0)), t)

  abbrev pub or_persisted : List HealthMsg → List HealthMsg → List HealthMsg
  or_persisted [] persisted = persisted
  or_persisted (h ∷ health) persisted = h ∷ health

  -- The issues of the providers in the answer of SystemStatusHandler: those of the moment, or else
  -- those that are stored.
  unfoldable pub status_health : Test → Connection → Connection → S.State → List HealthMsg
  unfolding build_health decode_all
  status_health test radarr sonarr s =
      or_persisted (build_health test radarr sonarr) (decode_all C (issue_values s))

  module _ (U : Unicode) where
    -- The test of the two loops: an entry that decodes to an issue of the provider.
    unfoldable pub is_of : Bytes → Bytes → Bool
    is_of provider v = elim (C.unmarshal v) [
      | none ↦ false
      | some h ↦ U.to_lower h.source == provider
    ]

    unfoldable pub keep_others : Bytes → List Bytes → List Bytes
    unfolding is_of filter
    keep_others provider vals = filter vals (λ v. not (is_of provider v))

    unfoldable pub provider_issue : Bytes → Bytes → HealthMsg
    unfolding capitalize
    provider_issue provider e =
        error_of (capitalize U provider)
          (capitalize U provider ++ bytes " connectivity failed: " ++ e)

    -- persistProviderHealthIssue
    unfoldable pub persist_provider_health_issue : Bytes → Bytes → S.State → S.State
    unfolding push_each keep_others provider_issue
    persist_provider_health_issue provider e s = elim (C.marshal (provider_issue provider e)) [
      | none ↦ s
      | some b ↦
          let key = health_issues_store_key in
          let kept = push_each S key (S.del s key).1 (keep_others provider (issue_values s)) in
          (S.ltrim (S.rpush kept key b).1 key (negsuc 99) (negsuc 0)).1
    ]

    unfoldable pub cleared : Bytes → S.State → List Bytes → S.State
    unfolding push_each keep_others
    cleared provider s [] = s
    cleared provider s (v ∷ vals) =
        push_each S health_issues_store_key (S.del s health_issues_store_key).1
          (keep_others provider (v ∷ vals))

    -- clearProviderHealthIssues
    unfoldable pub clear_provider_health_issues : Bytes → S.State → S.State
    unfolding cleared
    clear_provider_health_issues provider s = cleared provider s (issue_values s)

    -- handleProviderHealthExecute for a provider with a connection, with whether it succeeds.
    unfoldable pub execute_provider_check : Test → Bytes → Connection → S.State → Bool × S.State
    unfolding persist_provider_health_issue clear_provider_health_issues
    execute_provider_check test provider c s = elim (test c.url c.api_key provider) [
      | some e ↦ (false, persist_provider_health_issue provider e s)
      | none ↦ (true, clear_provider_health_issues provider s)
    ]
