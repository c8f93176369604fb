-- ===== src/Tests/Health.antt =====
-- The theorems of the health issues at a concrete map store.
use trailarr.Prelude.{refl, none, some, [], ◌∷◌, ◌++◌, Bytes, bytes, ◌==◌, if◌then◌else◌, arith}
use trailarr.Prelude.Maps.{find}
use trailarr.Store.Outcome.{ok}
use trailarr.Store.Recent.{last_n}
use trailarr.Store.Spec.{Replaced}
use trailarr.Store.Mem.{Mem, list_at}
use trailarr.Store.Mem.Lists.{mem_store, mem_store-IsListStore}
use trailarr.Json.{Codec}
use trailarr.Health.{
  HealthMsg, health_issues_store_key, Connection, Test, provider_issues, build_health,
  handle_health_execute, Unicode, capitalize, keep_others, persist_provider_health_issue,
  clear_provider_health_issues, provider_issue,
}
use trailarr.Health.Check.{Checked, handle_health_execute-Checked}
use trailarr.Health.Provider.{clear-persist_provider}

-- An encoding of an issue: its source.
abbrev issue : Bytes → HealthMsg
issue source = record {
  message = source ++ bytes " connectivity failed: " ++ bytes "no route";
  source = source;
  level = bytes "error";
}

abbrev issue_codec : Codec HealthMsg
issue_codec = record { marshal = λ h. some h.source; unmarshal = λ b. some (issue b) }

abbrev connection : Connection
connection = record { url = bytes "http://localhost"; api_key = bytes "k" }

-- Radarr does not answer, Sonarr does.
abbrev test : Test
test url key provider = if provider == bytes "radarr" then some (bytes "no route") else none

abbrev memory : Mem
memory = record {
  kv = [];
  hashes = [];
  lists = (health_issues_store_key, bytes "Sonarr" ∷ bytes "Radarr" ∷ []) ∷ [];
}

handle_health_execute-Checked_example :
    Checked mem_store mem_store-IsListStore issue_codec memory
      (build_health test connection connection)
      (bytes "Radarr" ∷ [])
      (handle_health_execute mem_store issue_codec test connection connection memory)
unfolding build_health provider_issues ◌==◌
handle_health_execute-Checked_example =
    handle_health_execute-Checked mem_store mem_store-IsListStore issue_codec test connection
      connection memory (bytes "Radarr" ∷ []) tt tt (tt, tt) refl refl

-- Letters of one byte; only `r` and `R` matter here.
abbrev unicode : Unicode
unicode = record {
  decode_rune = λ s. elim s [ [] ↦ (0xFFFD, 0) | c ∷ rest ↦ (c, 1) ];
  to_upper = λ r. if (r ∷ []) == bytes "r" then b'R' else r;
  encode_rune = λ r. r ∷ [];
  to_lower =
      λ s. elim s [ [] ↦ [] | c ∷ rest ↦ (if (c ∷ []) == bytes "R" then b'r' else c) ∷ rest ];
}

clear-persist_provider_example :
    Replaced mem_store memory health_issues_store_key
      (last_n 99 (
        keep_others mem_store issue_codec unicode
          (bytes "radarr")
          (list_at memory health_issues_store_key)))
      (
        ok tt,
        clear_provider_health_issues mem_store issue_codec unicode (bytes "radarr") (
            persist_provider_health_issue mem_store issue_codec unicode
              (bytes "radarr")
              (bytes "no route")
              memory),
      )
unfolding provider_issue capitalize find ◌==◌
clear-persist_provider_example =
    clear-persist_provider mem_store mem_store-IsListStore issue_codec unicode (bytes "radarr")
      (bytes "no route") (bytes "Radarr") memory tt tt (tt, (tt, tt)) tt
      (record { written = refl; read = refl }) refl (omega arith)
