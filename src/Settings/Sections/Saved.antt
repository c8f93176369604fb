-- ===== src/Settings/Sections/Saved.antt =====
-- Saving the extra types and the Plex settings, and reading them back.
use trailarr.Prelude.{
  ℕ, ◌≡◌, refl, ap, ◌∙◌, Bool, true, false, Option, none, some, Bytes, bytes, ◌==◌, Option-cases,
  inl, inr, ==_refl,
}
use trailarr.Prelude.Int.{ℤ}
use trailarr.Values.{
  Value, fields, Fields, end, get, put, at, at-put, at-plain_fields, plain-fields, plain,
  plain_fields,
}
use trailarr.Settings.File.{
  Yaml, Written, saved, failed, panicked, read_config_file, write_config_file,
}
use trailarr.Settings.Sections.{
  ExtraTypesConfig, default_extra_types, section, types_from, or_else, extra_types_of,
  extra_types_section, PlexConfig, plex_from, plex_section, plex_config_of, with_plex_config,
  or_existing, text_at,
}

-- The content of the file and the global variable Config.
pub record Settings : Type 0 where
  pub file : Option Bytes
  pub config : Option Fields

-- A section that is a map.
pub section-at : (name : Bytes) (c m : Fields) → at name c ≡ fields m → section name c ≡ m
unfolding section
section-at name c m e = rw (e, section) refl

types_from-section :
    (cfg : ExtraTypesConfig) → types_from (extra_types_section cfg) ≡ record cfg { shorts = false }
unfolding types_from at get ◌==◌
types_from-section cfg = refl

pub section-saved :
    (cfg : ExtraTypesConfig) (c : Fields)
    → at (bytes "extraTypes") c ≡ fields (extra_types_section cfg)
    → extra_types_of c ≡ record cfg { shorts = false }
unfolding extra_types_of
section-saved cfg c e =
    ap types_from (section-at (bytes "extraTypes") c (extra_types_section cfg) e)
    ∙ types_from-section cfg

module _ (Y : Yaml) (works : Bool) where
  -- GetExtraTypesConfig reads the file only if nothing is in memory.
  unfoldable pub get_extra_types_config : Settings → ExtraTypesConfig × Settings
  unfolding read_config_file
  get_extra_types_config s = elim s.config [
    | some c ↦ (extra_types_of c, s)
    | none ↦
        let r = read_config_file Y works s.file in
        elim r.1 [
          | none ↦ (default_extra_types, record s { file = r.0 })
          | some c ↦ (extra_types_of c, record { file = r.0; config = some c })
        ]
  ]

  abbrev extra_types_value : ExtraTypesConfig → Value
  extra_types_value cfg = fields (extra_types_section cfg)

  -- What SaveExtraTypesConfig does once the write is done: true stands for nil.
  abbrev remember : Settings → Option Bytes → Fields → Written → Bool × Settings
  remember s file config (saved out) = (
    true,
    record {
      file = some out;
      config = some (elim s.config [
        | none ↦ config
        | some c ↦ put (bytes "extraTypes") (at (bytes "extraTypes") config) c
      ]);
    },
  )
  remember s file config failed = (false, record s { file = file })
  remember s file config panicked = (false, record s { file = file })

  -- SaveExtraTypesConfig
  unfoldable pub save_extra_types_config : ExtraTypesConfig → Settings → Bool × Settings
  unfolding read_config_file write_config_file
  save_extra_types_config cfg s =
      let r = read_config_file Y works s.file in
      let config = put (bytes "extraTypes") (extra_types_value cfg) (or_else r.1 end) in
      remember s r.0 config (write_config_file Y works r.0 config)

  -- SavePlexConfig: the write.
  unfoldable pub save_plex_config : PlexConfig → Option Bytes → Written
  unfolding read_config_file write_config_file
  save_plex_config cfg file =
      let r = read_config_file Y works file in
      write_config_file Y works r.0 (with_plex_config cfg (or_else r.1 end))

  remembered :
      (cfg : ExtraTypesConfig) (s : Settings) (file : Option Bytes) (config : Fields) (w : Written)
      → at (bytes "extraTypes") config ≡ fields (extra_types_section cfg)
      → (remember s file config w).0 ≡ true
      → (get_extra_types_config (remember s file config w).1).0 ≡ record cfg { shorts = false }
  unfolding get_extra_types_config
  remembered cfg s file config (saved out) e h = elim (Option-cases s.config) [
    | inl n ↦ rw n (section-saved cfg config e)
    | inr (c, n) ↦ rw n (
        section-saved cfg (put (bytes "extraTypes") (at (bytes "extraTypes") config) c) (
          at-put (bytes "extraTypes") (bytes "extraTypes") (at (bytes "extraTypes") config) c
          ∙ (rw (==_refl (bytes "extraTypes")) e)))
  ]
  remembered cfg s file config failed e h = let no : ⊥ = cc h in absurd no
  remembered cfg s file config panicked e h = let no : ⊥ = cc h in absurd no

  -- After SaveExtraTypesConfig returned nil, GetExtraTypesConfig answers what was saved, except
  -- that Shorts is off.
  pub get-save_extra_types_config :
      (cfg : ExtraTypesConfig) (s : Settings)
      → (save_extra_types_config cfg s).0 ≡ true
      → (get_extra_types_config (save_extra_types_config cfg s).1).0 ≡ record cfg { shorts = false }
  unfolding save_extra_types_config
  get-save_extra_types_config cfg s h =
      let r = read_config_file Y works s.file in
      let config = put (bytes "extraTypes") (extra_types_value cfg) (or_else r.1 end) in
      remembered cfg s r.0 config (write_config_file Y works r.0 config)
        (at-put (bytes "extraTypes") (bytes "extraTypes") (extra_types_value cfg) (or_else r.1 end)
          ∙ (rw (==_refl (bytes "extraTypes")) refl))
        h

plex_from-section :
    (truncate : ℕ → ℤ) (reread : ℕ → Value) (cfg : PlexConfig) (sec : Fields)
    → plex_from truncate (plain_fields reread (plex_section cfg sec)) ≡ record cfg {
      token = or_existing cfg.token (text_at (bytes "token") sec);
      client_id = or_existing cfg.client_id (text_at (bytes "clientId") sec);
    }
unfolding plex_from at get plain ◌==◌
plex_from-section truncate reread cfg sec = refl

plex_config-at :
    (truncate : ℕ → ℤ) (c m : Fields)
    → at (bytes "plex") c ≡ fields m
    → plex_config_of truncate c ≡ some (plex_from truncate m)
unfolding plex_config_of plex_from
plex_config-at truncate c m e = rw (e, plex_config_of) refl

-- Saved Plex settings, as they are read from the file.
pub plex_config-saved :
    (truncate : ℕ → ℤ) (reread : ℕ → Value) (cfg : PlexConfig) (config : Fields)
    → plex_config_of truncate (plain_fields reread (with_plex_config cfg config))
      ≡ some (record cfg {
        token = or_existing cfg.token (text_at (bytes "token") (section (bytes "plex") config));
        client_id =
            or_existing cfg.client_id (text_at (bytes "clientId") (section (bytes "plex") config));
      })
unfolding with_plex_config
plex_config-saved truncate reread cfg config =
    let n = bytes "plex" in
    let sec = section n config in
    let new = fields (plex_section cfg sec) in
    plex_config-at truncate (plain_fields reread (put n new config))
      (plain_fields reread (plex_section cfg sec))
      (at-plain_fields reread n (put n new config)
        ∙ ap (plain reread) (at-put n n new config ∙ (rw (==_refl n) refl))
        ∙ plain-fields reread (plex_section cfg sec))
    ∙ ap some (plex_from-section truncate reread cfg sec)
