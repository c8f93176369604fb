-- ===== src/Settings/Defaults.antt =====
-- The defaults of the configuration: DefaultGeneralConfig, the ensure functions and
-- EnsureConfigDefaults of internal/settings.go, on the decoded map. Each returns whether it changed
-- something, and the map. The order in which Go walks a map of defaults does not matter, since the
-- keys are distinct.
pub mod Stage
pub mod Sections
pub mod Complete
pub mod Again
use trailarr.Prelude.{Bool, true, false, ◌||◌, Option, none, some, List, [], ◌∷◌, Bytes, bytes}
use trailarr.Prelude.Int.{pos}
use trailarr.Values.{
  Value, null, bool, int, text, items, fields, encoded, nil, Fields, end, field, get, put, at,
  as_fields, is_null, texts, of_entries,
}
use trailarr.Settings.Flags.{YtdlpFlagsConfig, default_ytdlp_flags_config, flags_section}

abbrev pub Defaults : Type 0
Defaults = List (Bytes × Value)

-- DefaultGeneralConfig
abbrev pub default_general_config : Defaults
default_general_config =
    (bytes "tmdbKey", text [])
    ∷ (bytes "autoDownloadExtras", bool true)
    ∷ (bytes "logLevel", text (bytes "Info"))
    ∷ (bytes "frontendUrl", text (bytes "http://localhost:8080"))
    ∷ (bytes "trustedProxies", encoded (items (texts (bytes "127.0.0.1" ∷ []))))
    ∷ (bytes "ffmpegDownloadTimeout", text (bytes "10m"))
    ∷ (bytes "ytdlpDownloadTimeout", text (bytes "5m"))
    ∷ []

-- Keys that are missing get their default.
unfoldable pub fill : Defaults → Fields → Bool × Fields
fill [] sec = (false, sec)
fill ((k, v) ∷ defaults) sec = elim (get k sec) [
  | none ↦ (true, (fill defaults (put k v sec)).1)
  | some _ ↦ fill defaults sec
]

-- A section that is missing or no map becomes the defaults; else the missing keys are added.
abbrev pub ensure_section : Bytes → Defaults → Fields → Bool × Fields
ensure_section name defaults config = elim (as_fields (at name config)) [
  | none ↦ (true, put name (fields (of_entries defaults)) config)
  | some sec ↦ ((fill defaults sec).0, put name (fields (fill defaults sec).1) config)
]

unfoldable pub ensure_general_defaults : Fields → Bool × Fields
unfolding fill
ensure_general_defaults = ensure_section (bytes "general") default_general_config

-- DefaultYtdlpFlagsConfig() as a value of its struct type.
abbrev default_flags : Value
default_flags = encoded (fields (flags_section default_ytdlp_flags_config))

unfoldable pub ensure_ytdlp_defaults : Fields → Bool × Fields
ensure_ytdlp_defaults config = elim (as_fields (at (bytes "ytdlpFlags") config)) [
  | none ↦ (true, put (bytes "ytdlpFlags") default_flags config)
  | some _ ↦ (false, config)
]

abbrev provider_defaults : Bytes → Defaults
provider_defaults url =
    (bytes "url", text url)
    ∷ (bytes "apiKey", text [])
    ∷ (bytes "pathMappings", encoded (items nil))
    ∷ []

abbrev pub radarr_defaults : Defaults
radarr_defaults = provider_defaults (bytes "http://localhost:7878")

abbrev pub sonarr_defaults : Defaults
sonarr_defaults = provider_defaults (bytes "http://localhost:8989")

unfoldable pub ensure_radarr_defaults : Fields → Bool × Fields
unfolding fill
ensure_radarr_defaults = ensure_section (bytes "radarr") radarr_defaults

unfoldable pub ensure_sonarr_defaults : Fields → Bool × Fields
unfolding fill
ensure_sonarr_defaults = ensure_section (bytes "sonarr") sonarr_defaults

abbrev pub plex_defaults : Defaults
plex_defaults =
    (bytes "protocol", text (bytes "http"))
    ∷ (bytes "ip", text (bytes "localhost"))
    ∷ (bytes "port", int (pos 32400))
    ∷ (bytes "token", text [])
    ∷ (bytes "clientId", text [])
    ∷ (bytes "enabled", bool false)
    ∷ []

unfoldable pub ensure_plex_defaults : Fields → Bool × Fields
unfolding fill
ensure_plex_defaults = ensure_section (bytes "plex") plex_defaults

-- defaultExtraTypes, less `Shorts`, which the function leaves out.
abbrev pub extra_type_defaults : Defaults
extra_type_defaults =
    (bytes "trailers", bool true)
    ∷ (bytes "scenes", bool false)
    ∷ (bytes "behindTheScenes", bool false)
    ∷ (bytes "interviews", bool false)
    ∷ (bytes "featurettes", bool false)
    ∷ (bytes "deletedScenes", bool false)
    ∷ (bytes "other", bool false)
    ∷ []

-- A section that is no map is emptied and then filled.
unfoldable pub ensure_extra_types_defaults : Fields → Bool × Fields
unfolding fill
ensure_extra_types_defaults config =
    let name = bytes "extraTypes" in
    let defaults = extra_type_defaults in
    elim (is_null (at name config)) [
      | true ↦ (true, put name (fields (of_entries defaults)) config)
      | false ↦ elim (as_fields (at name config)) [
        | none ↦ ((fill defaults end).0, put name (fields (fill defaults end).1) config)
        | some sec ↦ ((fill defaults sec).0, put name (fields (fill defaults sec).1) config)
      ]
    ]

abbrev pub default_mapping : Fields
default_mapping = of_entries (
    (bytes "Trailer", text (bytes "Trailers"))
    ∷ (bytes "Featurette", text (bytes "Featurettes"))
    ∷ (bytes "Behind the Scene", text (bytes "Behind The Scenes"))
    ∷ (bytes "Deleted Scene", text (bytes "Deleted Scenes"))
    ∷ (bytes "Interview", text (bytes "Interviews"))
    ∷ (bytes "Scene", text (bytes "Scenes"))
    ∷ (bytes "Short", text (bytes "Shorts"))
    ∷ (bytes "Other", text (bytes "Other"))
    ∷ [])

unfoldable pub ensure_canonicalize_extra_type_defaults : Fields → Bool × Fields
ensure_canonicalize_extra_type_defaults config =
    let name = bytes "canonicalizeExtraType" in
    elim (is_null (at name config)) [
      | true ↦ (
        true,
        put name (fields (field (bytes "mapping") (encoded (fields default_mapping)) end)) config,
      )
      | false ↦ (false, config)
    ]

-- `if ensure(config) { changed = true }`
abbrev then_ensure : (Fields → Bool × Fields) → Bool × Fields → Bool × Fields
then_ensure ensure (changed, config) = ((ensure config).0 || changed, (ensure config).1)

-- The sections of EnsureConfigDefaults; `changed` is true for a file that could not be read.
unfoldable pub ensure_all : Bool × Fields → Bool × Fields
ensure_all c = then_ensure ensure_canonicalize_extra_type_defaults (
    then_ensure ensure_extra_types_defaults (
      then_ensure ensure_plex_defaults (
        then_ensure ensure_sonarr_defaults (
          then_ensure ensure_radarr_defaults
            (then_ensure ensure_ytdlp_defaults (then_ensure ensure_general_defaults c))))))

-- The map that EnsureConfigDefaults starts from: what was read, or the core defaults.
unfoldable pub read_or_core : Option Fields → Bool × Fields
read_or_core none = (
  true,
  field (bytes "general") (fields (of_entries default_general_config))
      (field (bytes "ytdlpFlags") default_flags end),
)
read_or_core (some config) = (false, config)

-- EnsureConfigDefaults up to the write: whether it writes, and which map.
unfoldable pub ensure_config_defaults : Option Fields → Bool × Fields
unfolding ensure_all read_or_core
ensure_config_defaults read = ensure_all (read_or_core read)
