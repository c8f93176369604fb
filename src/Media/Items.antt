-- ===== src/Media/Items.antt =====
-- Media items as JSON objects, in internal/media.go: ids, the wanted flag, light entries, path mappings
-- and titles. The files on disk, strings.ToLower and the `%v` of fmt are arguments.
pub mod Wanted
pub mod Paths
use trailarr.Prelude.{
  ℕ, zero, suc, ◌+◌, ◌-◌, leb, eqb, Bool, true, false, ◌&&◌, ◌||◌, not, Option, none, some, List,
  [], ◌∷◌, ◌++◌, map, length, drop, Bytes, bytes, ◌==◌, has_prefix, contains, if◌then◌else◌,
}
use trailarr.Prelude.Int.{ℤ, pos, negsuc}
use trailarr.Prelude.Maps.{GoMap, find, insert}
use trailarr.Slices.{filter}
use trailarr.Values.{
  Value, null, bool, int, float, text, items, fields, encoded, Fields, end, field, get, put, at,
  as_text, or_null,
}
use trailarr.Settings.Flags.{Numbers}

abbrev pub eqb_ℤ : ℤ → ℤ → Bool
eqb_ℤ (pos a) (pos b) = eqb a b
eqb_ℤ (pos a) (negsuc b) = false
eqb_ℤ (negsuc a) (pos b) = false
eqb_ℤ (negsuc a) (negsuc b) = eqb a b

abbrev is_upper : ℕ → Bool
is_upper c = leb b'A' c && leb c b'Z'

abbrev lower_ascii : Bytes → Bytes
lower_ascii = map (λ c. if is_upper c then c + 32 else c)

-- strings.EqualFold(v, "true"): no letter outside ASCII folds to one of these four.
unfoldable pub folds_to_true : Bytes → Bool
folds_to_true v = lower_ascii v == bytes "true"

-- `p, _ := item["path"].(string)`
abbrev pub path_of : Fields → Bytes
path_of item = elim (as_text (at (bytes "path") item)) [ none ↦ [] | some p ↦ p ]

-- `if v, ok := m[k]; ok { lm[k] = v }`
abbrev pub copy_value : Bytes → Option Value → Fields → Fields
copy_value k o lm = elim o [ none ↦ lm | some v ↦ put k v lm ]

-- The same for a string only.
abbrev pub copy_text : Bytes → Option Value → Fields → Fields
copy_text k o lm = elim (as_text (or_null o)) [ none ↦ lm | some s ↦ put k (text s) lm ]

abbrev pub light_of :
    Option Value → Option Value → Option Value → Option Value → Option Value → Fields
light_of id title sort_title year air_date = copy_value (bytes "airDate") air_date (
    copy_value (bytes "year") year (
      copy_text (bytes "sortTitle") sort_title
        (copy_text (bytes "title") title (copy_value (bytes "id") id end))))

unfoldable pub build_light_item : Fields → Fields
build_light_item m =
    light_of (get (bytes "id") m) (get (bytes "title") m) (get (bytes "sortTitle") m)
      (get (bytes "year") m) (get (bytes "airDate") m)

module _ (N : Numbers) where
  unfoldable pub parse_media_id : Value → Option ℤ
  parse_media_id (int n) = some n
  parse_media_id (float x) = some (N.truncate x)
  parse_media_id (text s) = N.scan_int s
  parse_media_id v = none

  unfoldable pub get_media_id : Fields → Option ℤ
  unfolding parse_media_id
  get_media_id media = parse_media_id (at (bytes "id") media)

  abbrev wanted_value : Value → Bool
  wanted_value (bool b) = b
  wanted_value (text v) = folds_to_true v
  wanted_value (float x) = not (eqb_ℤ (N.truncate x) (pos 0))
  wanted_value (int n) = not (eqb_ℤ n (pos 0))
  wanted_value v = false

  unfoldable pub is_media_wanted : Fields → Bool
  unfolding folds_to_true
  is_media_wanted media = wanted_value (at (bytes "wanted") media)

  -- filterWantedItems
  unfoldable pub filter_wanted_items : List Fields → List Fields
  unfolding is_media_wanted filter
  filter_wanted_items media = filter media is_media_wanted

  module _ (has_trailer_files : Bytes → Bool) where
    -- One round of computeWantedIndexAndSetWants.
    unfoldable pub set_wanted : Fields → Fields
    unfolding get_media_id
    set_wanted item = elim (get_media_id item) [
      | none ↦ put (bytes "wanted") (bool false) item
      | some _ ↦ put (bytes "wanted") (bool (not (has_trailer_files (path_of item)))) item
    ]

    -- computeWantedIndexAndSetWants: the items and the index; the count of trailers is only logged.
    unfoldable pub compute_wanted_index : List Fields → List Fields × List Fields
    unfolding set_wanted filter_wanted_items build_light_item
    compute_wanted_index media =
        let marked = map set_wanted media in
        (marked, map build_light_item (filter_wanted_items marked))

  abbrev has_id : ℤ → Fields → Bool
  has_id id item = elim (parse_media_id (at (bytes "id") item)) [
    | none ↦ false
    | some n ↦ eqb_ℤ n id
  ]

  -- LoadSingleMediaItem, on the items that were loaded.
  unfoldable pub find_item : ℤ → List Fields → Option Fields
  unfolding parse_media_id
  find_item id [] = none
  find_item id (item ∷ media) =
      let rest = find_item id media in if has_id id item then some item else rest

  -- FindMediaPathByID, on the items that were loaded: the path of the first item with the id, or
  -- the empty string.
  unfoldable pub find_media_path_by_id : ℤ → List Fields → Bytes
  unfolding parse_media_id
  find_media_path_by_id id [] = []
  find_media_path_by_id id (item ∷ media) =
      let rest = find_media_path_by_id id media in if has_id id item then path_of item else rest

  -- The ids of prevItems in handleNewItems.
  unfoldable pub known_id : ℤ → List Fields → Bool
  unfolding find_item
  known_id id prev = elim (find_item id prev) [ none ↦ false | some _ ↦ true ]

  -- handleNewItems: the ids for which it starts the processing, in order.
  unfoldable pub new_items : List Fields → List Fields → List ℤ
  unfolding known_id
  new_items [] prev = []
  new_items (it ∷ media) prev =
      let rest = new_items media prev in
      elim (parse_media_id (at (bytes "id") it)) [
        | none ↦ rest
        | some id ↦ if known_id id prev then rest else id ∷ rest
      ]

  unfoldable pub handle_new_items : List Fields → List Fields → List ℤ
  unfolding new_items
  handle_new_items media [] = []
  handle_new_items media (p ∷ prev) = new_items media (p ∷ prev)

pub data MediaType : Type 0 where
  movie tv : MediaType

-- containsAny
unfoldable pub contains_any : Bytes → List Bytes → Bool
unfolding contains
contains_any s [] = false
contains_any s (sub ∷ substrs) = contains s sub || contains_any s substrs

abbrev pub tv_keywords : List Bytes
tv_keywords = bytes "/tv/" ∷ bytes "/series/" ∷ []

abbrev pub movie_keywords : List Bytes
movie_keywords = bytes "/movie/" ∷ bytes "/movies/" ∷ []

module _ (to_lower : Bytes → Bytes) where
  -- The sanity check: the mapping takes a path of one kind to one of the other.
  unfoldable pub crosses : MediaType → Bytes → Bytes → Bool
  unfolding contains_any
  crosses tv old new =
      contains_any (to_lower old) tv_keywords && contains_any (to_lower new) movie_keywords
  crosses movie old new =
      contains_any (to_lower old) movie_keywords && contains_any (to_lower new) tv_keywords

  -- The loop of updateItemPath: none if no mapping applies.
  unfoldable pub mapped_path : MediaType → Bytes → List (Bytes × Bytes) → Option Bytes
  unfolding crosses has_prefix
  mapped_path t p [] = none
  mapped_path t p ((from, to) ∷ mappings) =
      let rest = mapped_path t p mappings in
      let new = to ++ drop (length from) p in
      if has_prefix from p then (if crosses t p new then rest else some new) else rest

  -- updateItemPath; the mappings are nil if there is no section.
  unfoldable pub update_item_path : Fields → Option (List (Bytes × Bytes)) → MediaType → Fields
  unfolding mapped_path
  update_item_path item none t = item
  update_item_path item (some mappings) t = elim (as_text (at (bytes "path") item)) [
    | none ↦ item
    | some [] ↦ item
    | some (c ∷ p) ↦ elim (mapped_path t (c ∷ p) mappings) [
      | none ↦ item
      | some new ↦ put (bytes "path") (text new) item
    ]
  ]

-- updateItemTitle, with `show` for the `%v` of fmt; without a map the title stays.
unfoldable pub update_item_title : (Value → Bytes) → Fields → Option (GoMap Bytes) → Fields
update_item_title show item none = item
update_item_title show item (some titles) = elim (get (bytes "id") item) [
  | none ↦ item
  | some id ↦ elim (find (show id) titles) [
    | none ↦ item
    | some title ↦ put (bytes "title") (text title) item
  ]
]
