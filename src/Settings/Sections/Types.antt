-- ===== src/Settings/Sections/Types.antt =====
-- The names of extra types: those that GetEnabledCanonicalExtraTypes lists against those that
-- isExtraTypeEnabled knows.
use trailarr.Prelude.{
  ◌≡◌, refl, ap, ◌∙◌, Bool, true, false, none, List, [], ◌∷◌, Bytes, bytes, ◌==◌,
}
use trailarr.Prelude.Maps.{GoMap, find}
use trailarr.Settings.Sections.{
  ExtraTypesConfig, canonicalize_extra_type, is_extra_type_enabled, enabled_canonical_extra_types,
  if_enabled,
}

-- isExtraTypeEnabled refuses each of these types.
abbrev pub EachRefused : ExtraTypesConfig → List Bytes → Type 0
EachRefused cfg [] = Unit
EachRefused cfg (t ∷ ts) = (is_extra_type_enabled cfg t ≡ false) × EachRefused cfg ts

-- The mapping has none of the keys that the configuration uses for the types.
pub record HasNoKeys (mapping : GoMap Bytes) : Type 0 where
  pub trailers : find (bytes "trailers") mapping ≡ none
  pub scenes : find (bytes "scenes") mapping ≡ none
  pub behind_the_scenes : find (bytes "behindTheScenes") mapping ≡ none
  pub interviews : find (bytes "interviews") mapping ≡ none
  pub featurettes : find (bytes "featurettes") mapping ≡ none
  pub deleted_scenes : find (bytes "deletedScenes") mapping ≡ none
  pub other : find (bytes "other") mapping ≡ none

unmapped :
    (mapping : GoMap Bytes) (k : Bytes)
    → find k mapping ≡ none
    → canonicalize_extra_type mapping k ≡ k
unfolding canonicalize_extra_type
unmapped mapping k e = rw (e, canonicalize_extra_type) refl

refused :
    (cfg : ExtraTypesConfig) (mapping : GoMap Bytes) (k : Bytes)
    → find k mapping ≡ none
    → is_extra_type_enabled cfg k ≡ false
    → is_extra_type_enabled cfg (canonicalize_extra_type mapping k) ≡ false
refused cfg mapping k e h = ap (is_extra_type_enabled cfg) (unmapped mapping k e) ∙ h

if_enabled-EachRefused :
    (cfg : ExtraTypesConfig) (b : Bool) (t : Bytes) (rest : List Bytes)
    → is_extra_type_enabled cfg t ≡ false
    → EachRefused cfg rest
    → EachRefused cfg (if_enabled b t rest)
if_enabled-EachRefused cfg true t rest h k = (h, k)
if_enabled-EachRefused cfg false t rest h k = k

or_trailers-EachRefused :
    (cfg : ExtraTypesConfig) (t : Bytes) (types : List Bytes)
    → is_extra_type_enabled cfg t ≡ false
    → EachRefused cfg types
    → EachRefused cfg (elim types as (λ x. List Bytes) [ [] ↦ t ∷ [] | u ∷ us ↦ u ∷ us ])
or_trailers-EachRefused cfg t [] h k = (h, tt)
or_trailers-EachRefused cfg t (u ∷ us) h k = k

-- If the mapping has none of the keys of the configuration, isExtraTypeEnabled refuses every type
-- that GetEnabledCanonicalExtraTypes lists.
pub enabled_canonical_extra_types-EachRefused :
    (cfg : ExtraTypesConfig) (mapping : GoMap Bytes)
    → HasNoKeys mapping
    → EachRefused cfg (enabled_canonical_extra_types mapping cfg)
unfolding enabled_canonical_extra_types is_extra_type_enabled ◌==◌
enabled_canonical_extra_types-EachRefused cfg mapping h =
    let trailers = refused cfg mapping (bytes "trailers") h.trailers refl in
    let keep = if_enabled-EachRefused cfg in
    or_trailers-EachRefused cfg _ _ trailers (
      keep cfg.trailers _ _ trailers (
        keep cfg.scenes _ _ (refused cfg mapping (bytes "scenes") h.scenes refl) (
          keep cfg.behind_the_scenes _ _
            (refused cfg mapping (bytes "behindTheScenes") h.behind_the_scenes refl)
            (keep cfg.interviews _ _ (refused cfg mapping (bytes "interviews") h.interviews refl) (
              keep cfg.featurettes _ _
                (refused cfg mapping (bytes "featurettes") h.featurettes refl)
                (keep cfg.deleted_scenes _ _
                  (refused cfg mapping (bytes "deletedScenes") h.deleted_scenes refl)
                  (keep cfg.other _ _ (refused cfg mapping (bytes "other") h.other refl) tt)))))))
