-- ===== src/Settings/Defaults/Again.antt =====
-- A second run of EnsureConfigDefaults on what the first one wrote.
use mathlib.Core.Option
use trailarr.Prelude.{
  ℕ, ◌≡◌, ◌≢◌, refl, ap, ◌∙◌, Bool, false, Option, none, some, [], ◌∷◌, Bytes, bytes, ==_refl,
  arith, Bool-cases, inl, inr, ◌==◌,
}
use trailarr.Values.{
  Value, null, bool, int, float, text, items, fields, encoded, Fields, end, get, at, is_null,
  of_entries, plain, plain_fields, get-plain_fields, at-plain_fields,
}
use trailarr.Settings.Defaults.{
  Defaults, fill, ensure_all, read_or_core, ensure_config_defaults, extra_type_defaults,
  default_general_config, radarr_defaults, sonarr_defaults, plex_defaults,
}
use trailarr.Settings.Defaults.Stage.{Stage, run_stages-quiet}
use trailarr.Settings.Defaults.Sections.{
  or_default, fill-get, HasKeys, fill-quiet, section_value, section_changed, flags_value,
  flags_changed, types_value, types_changed, mapping_value, flags_stage, types_stage, mapping_stage,
}
use trailarr.Settings.Defaults.Complete.{
  stages, ensure_all-stages, stages-Distinct, stage-at, general_stage, radarr_stage, sonarr_stage,
  plex_stage,
}

HasKeys-of :
    (defaults : Defaults) (sec : Fields)
    → ((k : Bytes) → get k (of_entries defaults) ≢ none → get k sec ≢ none)
    → HasKeys defaults sec
unfolding get
HasKeys-of [] sec h = tt
HasKeys-of ((k, d) ∷ defaults) sec h = (
  h k (λ e. let no : ⊥ = cc (e, ==_refl k) in no),
  HasKeys-of defaults sec
      (λ j n. h j (elim (Bool-cases (k == j)) [ inl y ↦ rw y (λ e. cc e) | inr m ↦ rw m n ])),
)

-- A section with all its keys, written and read again, has them still.
filled-quiet :
    (reread : ℕ → Value) (defaults : Defaults) (sec : Fields) (old : Bytes → Option Value)
    → ((k : Bytes) → get k sec ≡ or_default (old k) (get k (of_entries defaults)))
    → (fill defaults (plain_fields reread sec)).0 ≡ false
filled-quiet reread defaults sec old h = fill-quiet defaults (plain_fields reread sec) (
    HasKeys-of defaults (plain_fields reread sec) (λ k n e.
      there k (old k) (get k (of_entries defaults)) n
        (get-plain_fields reread k sec ∙ ap (Option.map (plain reread)) (h k)) e))
  where
    there :
        (k : Bytes) (o d : Option Value)
        → d ≢ none
        → get k (plain_fields reread sec) ≡ Option.map (plain reread) (or_default o d)
        → get k (plain_fields reread sec) ≢ none
    there k none none n e f = n refl
    there k none (some v) n e f = cc (e, f)
    there k (some v) d n e f = cc (e, f)

module _ (reread : ℕ → Value) where
  emptied-quiet :
      (defaults : Defaults) → (fill defaults (plain_fields reread (of_entries defaults))).0 ≡ false
  emptied-quiet defaults =
      filled-quiet reread defaults (of_entries defaults) (λ _. none) (λ k. refl)

  kept-quiet :
      (defaults : Defaults) (sec : Fields)
      → (fill defaults (plain_fields reread (fill defaults sec).1)).0 ≡ false
  kept-quiet defaults sec =
      filled-quiet reread defaults (fill defaults sec).1 (λ k. get k sec) (fill-get defaults sec)

  section-quiet :
      (defaults : Defaults) (v : Value)
      → section_changed defaults (plain reread (section_value defaults v)) ≡ false
  unfolding plain
  section-quiet defaults (fields m) = kept-quiet defaults m
  section-quiet defaults null = emptied-quiet defaults
  section-quiet defaults (bool b) = emptied-quiet defaults
  section-quiet defaults (int n) = emptied-quiet defaults
  section-quiet defaults (float x) = emptied-quiet defaults
  section-quiet defaults (text s) = emptied-quiet defaults
  section-quiet defaults (items xs) = emptied-quiet defaults
  section-quiet defaults (encoded v) = emptied-quiet defaults

  types-quiet : (v : Value) → types_changed (plain reread (types_value v)) ≡ false
  unfolding plain
  types-quiet null = emptied-quiet extra_type_defaults
  types-quiet (fields m) = kept-quiet extra_type_defaults m
  types-quiet (bool b) = kept-quiet extra_type_defaults end
  types-quiet (int n) = kept-quiet extra_type_defaults end
  types-quiet (float x) = kept-quiet extra_type_defaults end
  types-quiet (text s) = kept-quiet extra_type_defaults end
  types-quiet (items xs) = kept-quiet extra_type_defaults end
  types-quiet (encoded v) = kept-quiet extra_type_defaults end

  flags-quiet : (v : Value) → flags_changed (plain reread (flags_value v)) ≡ false
  unfolding plain
  flags-quiet (fields m) = refl
  flags-quiet null = refl
  flags-quiet (bool b) = refl
  flags-quiet (int n) = refl
  flags-quiet (float x) = refl
  flags-quiet (text s) = refl
  flags-quiet (items xs) = refl
  flags-quiet (encoded v) = refl

  mapping-quiet :
      (v : Value)
      → is_null (plain reread v) ≡ is_null v
      → is_null (plain reread (mapping_value v)) ≡ false
  unfolding plain
  mapping-quiet null h = refl
  mapping-quiet (bool b) h = h
  mapping-quiet (int n) h = h
  mapping-quiet (float x) h = h
  mapping-quiet (text s) h = h
  mapping-quiet (items xs) h = h
  mapping-quiet (fields m) h = h
  mapping-quiet (encoded v) h = h

  settle :
      (s : Stage) (c : Bool × Fields)
      → at s.name (ensure_all c).1 ≡ s.value (at s.name c.1)
      → s.changed (plain reread (s.value (at s.name c.1))) ≡ false
      → s.changed (at s.name (plain_fields reread (ensure_all c).1)) ≡ false
  settle s c e q =
      ap s.changed (at-plain_fields reread s.name (ensure_all c).1 ∙ ap (plain reread) e) ∙ q

  -- If the mapping of extra types is not written in a way that reads back as null, a second
  -- EnsureConfigDefaults on what the first one left, written and read again, changes nothing.
  pub ensure_config_defaults-settled :
      (read : Option Fields)
      → is_null (plain reread (at (bytes "canonicalizeExtraType") (read_or_core read).1))
        ≡ is_null (at (bytes "canonicalizeExtraType") (read_or_core read).1)
      → (ensure_config_defaults (some (plain_fields reread (ensure_config_defaults read).1))).0
        ≡ false
  unfolding ensure_config_defaults read_or_core ◌==◌
  ensure_config_defaults-settled read h =
      let c = read_or_core read in
      let d = plain_fields reread (ensure_all c).1 in
      let section : Bytes → Value = λ name. at name c.1 in
      let g =
        settle general_stage c (stage-at 0 general_stage c refl (ground arith) (ground arith))
          (section-quiet default_general_config (section (bytes "general"))) in
      let f =
        settle flags_stage c (stage-at 1 flags_stage c refl (ground arith) (ground arith))
          (flags-quiet (section (bytes "ytdlpFlags"))) in
      let r =
        settle radarr_stage c (stage-at 2 radarr_stage c refl (ground arith) (ground arith))
          (section-quiet radarr_defaults (section (bytes "radarr"))) in
      let s =
        settle sonarr_stage c (stage-at 3 sonarr_stage c refl (ground arith) (ground arith))
          (section-quiet sonarr_defaults (section (bytes "sonarr"))) in
      let p =
        settle plex_stage c (stage-at 4 plex_stage c refl (ground arith) (ground arith))
          (section-quiet plex_defaults (section (bytes "plex"))) in
      let t =
        settle types_stage c (stage-at 5 types_stage c refl (ground arith) (ground arith))
          (types-quiet (section (bytes "extraTypes"))) in
      let m =
        settle mapping_stage c (stage-at 6 mapping_stage c refl (ground arith) (ground arith))
          (mapping-quiet (section (bytes "canonicalizeExtraType")) h) in
      ap (λ b. b.0) (ensure_all-stages (false, d))
      ∙ run_stages-quiet stages d stages-Distinct (g, (f, (r, (s, (p, (t, (m, tt)))))))
