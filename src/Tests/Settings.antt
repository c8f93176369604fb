-- ===== src/Tests/Settings.antt =====
-- The theorems of the settings at concrete configurations.
use trailarr.Prelude.{
  ℕ, ◌≡◌, refl, ap, sym, true, false, none, some, [], ◌∷◌, Bytes, bytes, ◌==◌, eqb, eqb_iff,
  Bool-cases, inl, inr, if◌then◌else◌,
}
use trailarr.Prelude.Int.{pos}
use trailarr.Prelude.Maps.{GoMap, find}
use trailarr.Values.{
  Value, null, int, float, text, fields, Fields, end, field, plain, plain_fields, at, get, put,
}
use trailarr.Settings.Flags.{
  YtdlpFlagsConfig, default_ytdlp_flags_config, flags_section, Numbers, to_float64,
  apply_ytdlp_flags,
}
use trailarr.Settings.Flags.Read.{apply-flags_section}
use trailarr.Settings.Defaults.{fill, read_or_core, ensure_config_defaults}
use trailarr.Settings.Defaults.Complete.{AllFilled, ensure_config_defaults-AllFilled}
use trailarr.Settings.Defaults.Again.{ensure_config_defaults-settled}
use trailarr.Settings.File.{Yaml, Written, panicked, ensure_defaults_in_file}
use trailarr.Settings.File.Empty.{ensure_defaults-panics}
use trailarr.Settings.Sections.{
  ExtraTypesConfig, default_extra_types, enabled_canonical_extra_types,
}
use trailarr.Settings.Sections.Saved.{
  Settings, get_extra_types_config, save_extra_types_config, get-save_extra_types_config,
}
use trailarr.Settings.Sections.Types.{
  EachRefused, HasNoKeys, enabled_canonical_extra_types-EachRefused,
}

abbrev three : ℕ
three = 0x4008_0000_0000_0000

-- 3.0 is written as 3; every integer here is a 3.
abbrev numbers : Numbers
numbers = record {
  of_int = λ n. three;
  truncate = λ x. pos x;
  scan_float = λ s. none;
  scan_int = λ s. none;
}

abbrev reread : ℕ → Value
reread x = if eqb x three then int (pos 3) else float x

to_float64-reread : (x : ℕ) → to_float64 numbers (reread x) ≡ some x
unfolding to_float64
to_float64-reread x = elim (Bool-cases (eqb x three)) [
  | inl y ↦ rw y (ap some (sym ((eqb_iff x three).0 y)))
  | inr n ↦ rw n refl
]

abbrev flags : YtdlpFlagsConfig
flags = record default_ytdlp_flags_config { quiet = true; limit_rate = bytes "1M" }

apply-flags_section_example :
    apply_ytdlp_flags numbers (plain_fields reread (flags_section flags)) default_ytdlp_flags_config
    ≡ flags
apply-flags_section_example =
    apply-flags_section numbers reread flags default_ytdlp_flags_config to_float64-reread

-- A file with one key of Plex.
abbrev old_config : Fields
old_config = field (bytes "plex") (fields (field (bytes "token") (text (bytes "t")) end)) end

ensure_config_defaults-AllFilled_example :
    AllFilled (read_or_core (some old_config)).1 (ensure_config_defaults (some old_config)).1
ensure_config_defaults-AllFilled_example = ensure_config_defaults-AllFilled (some old_config)

ensure_config_defaults-settled_example :
    (ensure_config_defaults
      (some (plain_fields reread (ensure_config_defaults (some old_config)).1))).0
    ≡ false
unfolding read_or_core at get ◌==◌ plain
ensure_config_defaults-settled_example =
    ensure_config_defaults-settled reread (some old_config) refl

-- A document without content, and one that holds a map with a foreign key.
abbrev empty_yaml : Yaml
empty_yaml = record { marshal = λ m. some (bytes "{}"); unmarshal = λ b. some null }

abbrev yaml : Yaml
yaml = record { marshal = λ m. some (bytes "new"); unmarshal = λ b. some (fields old_config) }

ensure_defaults-panics_example : ensure_defaults_in_file empty_yaml true (some []) ≡ some panicked
ensure_defaults-panics_example = ensure_defaults-panics empty_yaml true [] refl

abbrev types : ExtraTypesConfig
types = record default_extra_types { scenes = true; shorts = true }

abbrev no_file : Settings
no_file = record { file = none; config = none }

get-save_extra_types_config_example :
    (get_extra_types_config yaml true (save_extra_types_config yaml true types no_file).1).0
    ≡ record types { shorts = false }
unfolding save_extra_types_config ensure_config_defaults
    trailarr.Settings.Defaults.ensure_canonicalize_extra_type_defaults at get
    trailarr.Settings.Defaults.ensure_extra_types_defaults
    trailarr.Settings.Defaults.ensure_plex_defaults
    trailarr.Settings.Defaults.ensure_sonarr_defaults
    trailarr.Settings.Defaults.ensure_radarr_defaults
    trailarr.Settings.Defaults.ensure_ytdlp_defaults
    trailarr.Settings.Defaults.ensure_general_defaults trailarr.Settings.File.read_config_file_raw
    ◌==◌ put
get-save_extra_types_config_example = get-save_extra_types_config yaml true types no_file refl

abbrev mapping : GoMap Bytes
mapping = (bytes "Trailer", bytes "Trailers") ∷ (bytes "Scene", bytes "Scenes") ∷ []

mapping-HasNoKeys : HasNoKeys mapping
unfolding find ◌==◌
mapping-HasNoKeys = record {
  trailers = refl;
  scenes = refl;
  behind_the_scenes = refl;
  interviews = refl;
  featurettes = refl;
  deleted_scenes = refl;
  other = refl;
}

enabled_canonical_extra_types-EachRefused_example :
    EachRefused types (enabled_canonical_extra_types mapping types)
enabled_canonical_extra_types-EachRefused_example =
    enabled_canonical_extra_types-EachRefused types mapping mapping-HasNoKeys
