-- ===== src/Settings/Defaults/Sections.antt =====
-- The seven sections of EnsureConfigDefaults as stages.
use trailarr.Prelude.{
  ◌≡◌, ◌≢◌, refl, Bool, true, false, Option, none, some, [], ◌∷◌, Bytes, bytes, ◌==◌, ==_iff, arith,
  if◌then◌else◌, Option-cases, inl, inr,
}
use trailarr.Values.{
  Value, fields, encoded, Fields, end, field, get, put, at, get-put, at-put, as_fields, is_null,
  of_entries,
}
use trailarr.Settings.Defaults.{
  Defaults, fill, ensure_section, ensure_ytdlp_defaults, ensure_extra_types_defaults,
  ensure_canonicalize_extra_type_defaults, default_flags, extra_type_defaults, default_mapping,
}
use trailarr.Settings.Defaults.Stage.{Stage}

abbrev pub or_default : Option Value → Option Value → Option Value
or_default (some v) d = some v
or_default none d = d

-- The key `k` of a section with the value `v`.
abbrev pub key_of : Bytes → Value → Option Value
key_of k v = elim (as_fields v) [ none ↦ none | some sec ↦ get k sec ]

pub fill-get :
    (defaults : Defaults) (sec : Fields) (k : Bytes)
    → get k (fill defaults sec).1 ≡ or_default (get k sec) (get k (of_entries defaults))
unfolding fill get
fill-get [] sec k = elim (Option-cases (get k sec)) [ inl e ↦ rw e refl | inr (v, e) ↦ rw e refl ]
fill-get ((j, d) ∷ defaults) sec k = ground (
  arith,
  ==_iff j k,
  get-put j k d sec,
  fill-get defaults sec k,
  fill-get defaults (put j d sec) k,
)

-- Every key of the defaults is there.
abbrev pub HasKeys : Defaults → Fields → Type 0
HasKeys [] sec = Unit
HasKeys ((k, d) ∷ defaults) sec = (get k sec ≢ none) × HasKeys defaults sec

pub fill-quiet :
    (defaults : Defaults) (sec : Fields) → HasKeys defaults sec → (fill defaults sec).0 ≡ false
unfolding fill
fill-quiet [] sec h = refl
fill-quiet ((k, d) ∷ defaults) sec h = elim (Option-cases (get k sec)) [
  | inl e ↦ absurd (h.0 e)
  | inr (v, e) ↦ rw (e, fill) (fill-quiet defaults sec h.1)
]

abbrev pub section_value : Defaults → Value → Value
section_value defaults v = elim (as_fields v) [
  | none ↦ fields (of_entries defaults)
  | some sec ↦ fields (fill defaults sec).1
]

abbrev pub section_changed : Defaults → Value → Bool
section_changed defaults v = elim (as_fields v) [ none ↦ true | some sec ↦ (fill defaults sec).0 ]

pub key_of-section_value :
    (defaults : Defaults) (v : Value) (k : Bytes)
    → key_of k (section_value defaults v) ≡ or_default (key_of k v) (get k (of_entries defaults))
key_of-section_value defaults v k = elim (Option-cases (as_fields v)) [
  | inl e ↦ rw (e, key_of) refl
  | inr (sec, e) ↦ rw (e, key_of) (fill-get defaults sec k)
]

pub section-reports :
    (name : Bytes) (defaults : Defaults) (c : Fields)
    → (ensure_section name defaults c).0 ≡ section_changed defaults (at name c)
section-reports name defaults c = ground arith

pub section-writes :
    (name : Bytes) (defaults : Defaults) (c : Fields) (j : Bytes)
    → at j (ensure_section name defaults c).1
      ≡ (if name == j then section_value defaults (at name c) else at j c)
section-writes name defaults c j =
    ground (arith, at-put name j (section_value defaults (at name c)) c)

abbrev pub section_stage : Bytes → Defaults → Stage
section_stage name defaults = record {
  name = name;
  run = ensure_section name defaults;
  value = section_value defaults;
  changed = section_changed defaults;
  reports = section-reports name defaults;
  writes = section-writes name defaults;
}

abbrev pub flags_value : Value → Value
flags_value v = elim (as_fields v) [ none ↦ default_flags | some _ ↦ v ]

abbrev pub flags_changed : Value → Bool
flags_changed v = elim (as_fields v) [ none ↦ true | some _ ↦ false ]

pub flags-reports :
    (c : Fields) → (ensure_ytdlp_defaults c).0 ≡ flags_changed (at (bytes "ytdlpFlags") c)
unfolding ensure_ytdlp_defaults
flags-reports c = ground arith

pub flags-writes :
    (c : Fields) (j : Bytes)
    → at j (ensure_ytdlp_defaults c).1
      ≡ (if bytes "ytdlpFlags" == j then flags_value (at (bytes "ytdlpFlags") c) else at j c)
unfolding ensure_ytdlp_defaults
flags-writes c j =
    ground (arith, ==_iff (bytes "ytdlpFlags") j, at-put (bytes "ytdlpFlags") j default_flags c)

abbrev pub flags_stage : Stage
flags_stage = record {
  name = bytes "ytdlpFlags";
  run = ensure_ytdlp_defaults;
  value = flags_value;
  changed = flags_changed;
  reports = flags-reports;
  writes = flags-writes;
}

abbrev pub types_value : Value → Value
types_value v = elim (is_null v) [
  | true ↦ fields (of_entries extra_type_defaults)
  | false ↦ elim (as_fields v) [
    | none ↦ fields (fill extra_type_defaults end).1
    | some sec ↦ fields (fill extra_type_defaults sec).1
  ]
]

abbrev pub types_changed : Value → Bool
types_changed v = elim (is_null v) [
  | true ↦ true
  | false ↦ elim (as_fields v) [
    | none ↦ (fill extra_type_defaults end).0
    | some sec ↦ (fill extra_type_defaults sec).0
  ]
]

pub types-reports :
    (c : Fields) → (ensure_extra_types_defaults c).0 ≡ types_changed (at (bytes "extraTypes") c)
unfolding ensure_extra_types_defaults
types-reports c = ground arith

pub types-writes :
    (c : Fields) (j : Bytes)
    → at j (ensure_extra_types_defaults c).1
      ≡ (if bytes "extraTypes" == j then types_value (at (bytes "extraTypes") c) else at j c)
unfolding ensure_extra_types_defaults
types-writes c j =
    ground (arith, at-put (bytes "extraTypes") j (types_value (at (bytes "extraTypes") c)) c)

abbrev pub types_stage : Stage
types_stage = record {
  name = bytes "extraTypes";
  run = ensure_extra_types_defaults;
  value = types_value;
  changed = types_changed;
  reports = types-reports;
  writes = types-writes;
}

abbrev pub mapping_value : Value → Value
mapping_value v = elim (is_null v) [
  | true ↦ fields (field (bytes "mapping") (encoded (fields default_mapping)) end)
  | false ↦ v
]

pub mapping-reports :
    (c : Fields)
    → (ensure_canonicalize_extra_type_defaults c).0 ≡ is_null (at (bytes "canonicalizeExtraType") c)
unfolding ensure_canonicalize_extra_type_defaults
mapping-reports c = ground arith

pub mapping-writes :
    (c : Fields) (j : Bytes)
    → at j (ensure_canonicalize_extra_type_defaults c).1 ≡ (
        if bytes "canonicalizeExtraType" == j
        then mapping_value (at (bytes "canonicalizeExtraType") c)
        else at j c)
unfolding ensure_canonicalize_extra_type_defaults
mapping-writes c j = ground (
  arith,
  ==_iff (bytes "canonicalizeExtraType") j,
  at-put (bytes "canonicalizeExtraType") j (mapping_value (at (bytes "canonicalizeExtraType") c)) c,
)

abbrev pub mapping_stage : Stage
mapping_stage = record {
  name = bytes "canonicalizeExtraType";
  run = ensure_canonicalize_extra_type_defaults;
  value = mapping_value;
  changed = is_null;
  reports = mapping-reports;
  writes = mapping-writes;
}
