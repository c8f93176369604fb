-- ===== src/Settings/Defaults/Complete.antt =====
-- EnsureConfigDefaults: the sections it leaves, and a second run on what the first one wrote.
use trailarr.Prelude.{
  ℕ, ◌≡◌, refl, ap, ◌∙◌, Bool, Option, List, [], ◌∷◌, Bytes, bytes, ◌==◌, arith, suc, take, drop,
}
use trailarr.Values.{
  Value, null, bool, int, float, text, items, fields, encoded, Fields, end, get, at, of_entries,
}
use trailarr.Settings.Defaults.{
  Defaults, ensure_all, read_or_core, ensure_config_defaults, default_general_config,
  radarr_defaults, sonarr_defaults, plex_defaults, extra_type_defaults, ensure_general_defaults,
  ensure_radarr_defaults, ensure_sonarr_defaults, ensure_plex_defaults,
}
use trailarr.Settings.Defaults.Stage.{
  Stage, run_stages, Avoids, at-run_stages, at-run_stages-one, Distinct,
}
use trailarr.Settings.Defaults.Sections.{
  or_default, key_of, fill-get, section_stage, flags_value, flags_stage, types_value, types_stage,
  mapping_value, mapping_stage, key_of-section_value,
}

abbrev pub general_stage : Stage
general_stage = section_stage (bytes "general") default_general_config

abbrev pub radarr_stage : Stage
radarr_stage = section_stage (bytes "radarr") radarr_defaults

abbrev pub sonarr_stage : Stage
sonarr_stage = section_stage (bytes "sonarr") sonarr_defaults

abbrev pub plex_stage : Stage
plex_stage = section_stage (bytes "plex") plex_defaults

abbrev pub stages : List Stage
stages =
    general_stage ∷ flags_stage ∷ radarr_stage ∷ sonarr_stage ∷ plex_stage ∷ types_stage
    ∷ mapping_stage ∷ []

pub ensure_all-stages : (c : Bool × Fields) → ensure_all c ≡ run_stages stages c
unfolding ensure_all ensure_general_defaults ensure_radarr_defaults ensure_sonarr_defaults
    ensure_plex_defaults
ensure_all-stages c = refl

-- Each key of a section is as it was, or has its default if it was missing.
abbrev pub Filled : Bytes → Defaults → Fields → Fields → Type 0
Filled name defaults before after =
    (k : Bytes)
    → key_of k (at name after)
      ≡ or_default (key_of k (at name before)) (get k (of_entries defaults))

pub stages-Distinct : Distinct stages
unfolding ◌==◌
stages-Distinct = ground arith

pub types_value-key :
    (v : Value) (k : Bytes)
    → key_of k (types_value v) ≡ or_default (key_of k v) (get k (of_entries extra_type_defaults))
unfolding get
types_value-key null k = refl
types_value-key (bool b) k = fill-get extra_type_defaults end k
types_value-key (int n) k = fill-get extra_type_defaults end k
types_value-key (float x) k = fill-get extra_type_defaults end k
types_value-key (text s) k = fill-get extra_type_defaults end k
types_value-key (items xs) k = fill-get extra_type_defaults end k
types_value-key (fields m) k = fill-get extra_type_defaults m k
types_value-key (encoded v) k = fill-get extra_type_defaults end k

-- The n-th stage of the row, when the others have other names.
pub stage-at :
    (n : ℕ) (s : Stage) (c : Bool × Fields)
    → run_stages stages c ≡ run_stages (s ∷ drop (suc n) stages) (run_stages (take n stages) c)
    → Avoids s.name (take n stages)
    → Avoids s.name (drop (suc n) stages)
    → at s.name (ensure_all c).1 ≡ s.value (at s.name c.1)
stage-at n s c e h k =
    ap (λ r. at s.name r.1) (ensure_all-stages c ∙ e)
    ∙ at-run_stages-one (take n stages) (drop (suc n) stages) s c h k

pub record AllFilled (before after : Fields) : Type 0 where
  pub general : Filled (bytes "general") default_general_config before after
  pub radarr : Filled (bytes "radarr") radarr_defaults before after
  pub sonarr : Filled (bytes "sonarr") sonarr_defaults before after
  pub plex : Filled (bytes "plex") plex_defaults before after
  pub extra_types : Filled (bytes "extraTypes") extra_type_defaults before after
  pub flags : at (bytes "ytdlpFlags") after ≡ flags_value (at (bytes "ytdlpFlags") before)
  pub mapping :
      at (bytes "canonicalizeExtraType") after
      ≡ mapping_value (at (bytes "canonicalizeExtraType") before)
  pub others : (j : Bytes) → Avoids j stages → at j after ≡ at j before

pub ensure_all-AllFilled : (c : Bool × Fields) → AllFilled c.1 (ensure_all c).1
unfolding ◌==◌
ensure_all-AllFilled c = record {
  general = λ k.
      ap (key_of k) (stage-at 0 general_stage c refl (ground arith) (ground arith))
      ∙ key_of-section_value default_general_config (at (bytes "general") c.1) k;
  flags = stage-at 1 flags_stage c refl (ground arith) (ground arith);
  radarr = λ k.
      ap (key_of k) (stage-at 2 radarr_stage c refl (ground arith) (ground arith))
      ∙ key_of-section_value radarr_defaults (at (bytes "radarr") c.1) k;
  sonarr = λ k.
      ap (key_of k) (stage-at 3 sonarr_stage c refl (ground arith) (ground arith))
      ∙ key_of-section_value sonarr_defaults (at (bytes "sonarr") c.1) k;
  plex = λ k.
      ap (key_of k) (stage-at 4 plex_stage c refl (ground arith) (ground arith))
      ∙ key_of-section_value plex_defaults (at (bytes "plex") c.1) k;
  extra_types = λ k.
      ap (key_of k) (stage-at 5 types_stage c refl (ground arith) (ground arith))
      ∙ types_value-key (at (bytes "extraTypes") c.1) k;
  mapping = stage-at 6 mapping_stage c refl (ground arith) (ground arith);
  others = λ j h. ap (λ r. at j r.1) (ensure_all-stages c) ∙ at-run_stages stages j c h;
}

-- EnsureConfigDefaults leaves in the sections general, radarr, sonarr, plex and extraTypes every
-- key as it was, or with its default if it was missing; a missing section of flags or mapping of
-- extra types gets its default; every other section stays.
pub ensure_config_defaults-AllFilled :
    (read : Option Fields) → AllFilled (read_or_core read).1 (ensure_config_defaults read).1
unfolding ensure_config_defaults
ensure_config_defaults-AllFilled read = ensure_all-AllFilled (read_or_core read)
