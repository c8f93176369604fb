-- ===== src/Status.antt =====
-- The status page, internal/status.go: versions, update warnings and mounts. strings.TrimSpace,
-- strings.Fields and the latest tags of the releases are arguments; so is fmt.Sscanf with %d, on parts
-- without a minus sign.
pub mod Versions
use trailarr.Prelude.{
  ℕ, zero, suc, ◌+◌, ltb, leb, eqb, Bool, true, false, ◌&&◌, ◌||◌, not, Option, none, some, List,
  [], ◌∷◌, ◌++◌, drop, get_elem?, length, Bytes, bytes, ◌==◌, has_prefix, if◌then◌else◌,
}
use trailarr.Prelude.Maps.{GoMap, insert}
use trailarr.Health.{HealthMsg}

-- The separators of FieldsFunc.
abbrev is_separator : ℕ → Bool
is_separator c = eqb c b'.' || eqb c b'-' || eqb c b'_'

abbrev or_field : Bytes → List Bytes → List Bytes
or_field [] fields = fields
or_field (c ∷ field) fields = (c ∷ field) ∷ fields

-- strings.FieldsFunc, with the bytes of the field so far.
unfoldable pub fields_func : Bytes → Bytes → List Bytes
fields_func field [] = or_field field []
fields_func field (c ∷ s) =
    let next = fields_func (field ++ c ∷ []) s in
    let rest = fields_func [] s in if is_separator c then or_field field rest else next

unfoldable pub leading_digits : Bytes → Bytes
leading_digits [] = []
leading_digits (c ∷ s) =
    let rest = leading_digits s in if leb b'0' c && leb c b'9' then c ∷ rest else []

-- What compareVersion returns: 1, -1 and 0.
pub data Compared : Type 0 where
  newer older equal : Compared

-- `if i < len(pa) { va = pa[i] }`
abbrev pub or_zero : List ℕ → ℕ → ℕ
or_zero p i = elim (get_elem? p i) [ none ↦ 0 | some v ↦ v ]

-- The loop from `i`, for `n` rounds.
unfoldable pub compare_loop : ℕ → ℕ → List ℕ → List ℕ → Compared
compare_loop i zero pa pb = equal
compare_loop i (suc n) pa pb =
    let rest = compare_loop (i + 1) n pa pb in
    if ltb (or_zero pb i) (or_zero pa i)
    then newer
    else if ltb (or_zero pa i) (or_zero pb i)
    then older
    else rest

abbrev pub max_length : List ℕ → List ℕ → ℕ
max_length pa pb = if ltb (length pa) (length pb) then length pb else length pa

module _ (trim_space : Bytes → Bytes) (scan : Bytes → Option ℕ) where
  abbrev part_or_digits : Bytes → Option ℕ
  part_or_digits p = elim (scan p) [
    | some num ↦ some num
    | none ↦ elim (leading_digits p) [
      | [] ↦ none
      | d ∷ ds ↦ elim (scan (d ∷ ds)) [ none ↦ some 0 | some num ↦ some num ]
    ]
  ]

  unfoldable pub numbers_of : List Bytes → List ℕ
  unfolding leading_digits
  numbers_of [] = []
  numbers_of (p ∷ parts) = elim (part_or_digits p) [
    | none ↦ numbers_of parts
    | some num ↦ num ∷ numbers_of parts
  ]

  abbrev trim_v : Bytes → Bytes
  unfolding has_prefix
  trim_v s = if has_prefix (bytes "v") s then drop 1 s else s

  -- `parse` of compareVersion.
  unfoldable pub parse_version : Bytes → List ℕ
  unfolding numbers_of trim_v fields_func
  parse_version s = numbers_of (fields_func [] (trim_v (trim_space s)))

  unfoldable pub compare_version : Bytes → Bytes → Compared
  unfolding parse_version compare_loop
  compare_version a b =
      if a == b
      then equal
      else compare_loop 0 (max_length (parse_version a) (parse_version b)) (parse_version a)
          (parse_version b)

  abbrev is_newer : Compared → Bool
  is_newer newer = true
  is_newer older = false
  is_newer equal = false

  abbrev update_issue : Bytes → Option Bytes → Bytes → List HealthMsg
  unfolding compare_version
  update_issue name none version = []
  update_issue name (some tag) version =
      if not (tag == []) && is_newer (compare_version tag version)
      then record {
        message = name ++ bytes " update available";
        source = name;
        level = bytes "warning";
      }
        ∷ []
      else []

  -- One half of appendUpdateWarnings: `latest` is fetchLatestGithubReleaseTag, none for an error.
  unfoldable pub update_warnings : Bytes → Option Bytes → Bytes → List HealthMsg
  unfolding update_issue
  update_warnings name latest installed =
      let version = trim_space installed in
      if not (version == []) && not (version == bytes "Not found")
      then update_issue name latest version
      else record {
        message = name ++ bytes " is not installed";
        source = name;
        level = bytes "error";
      }
        ∷ []

  unfoldable pub append_update_warnings :
      List HealthMsg → (Bytes → Option Bytes) → Bytes → Bytes → List HealthMsg
  unfolding update_warnings
  append_update_warnings health latest ytdlp_version ffmpeg_version =
      (health ++ update_warnings (bytes "yt-dlp") (latest (bytes "yt-dlp/yt-dlp")) ytdlp_version)
      ++ update_warnings (bytes "ffmpeg") (latest (bytes "ffmpeg/ffmpeg")) ffmpeg_version
