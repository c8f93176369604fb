-- ===== src/Media/Items/Wanted.antt =====
-- The wanted flag and the wanted index.
use trailarr.Prelude.{
  ◌≡◌, refl, Bool, false, not, none, some, List, [], ◌∷◌, map, Bytes, bytes, ◌==◌, Option-cases,
  Bool-cases, inl, inr,
}
use trailarr.Slices.{filter}
use trailarr.Values.{Value, bool, Fields, put, get-put, at-put}
use trailarr.Settings.Flags.{Numbers}
use trailarr.Media.Items.{
  get_media_id, is_media_wanted, filter_wanted_items, light_of, build_light_item, path_of,
  set_wanted, compute_wanted_index,
}

light-wanted :
    (item : Fields) (v : Value)
    → build_light_item (put (bytes "wanted") v item) ≡ build_light_item item
unfolding build_light_item ◌==◌
light-wanted item v = λ i.
    light_of (get-put (bytes "wanted") (bytes "id") v item i)
      (get-put (bytes "wanted") (bytes "title") v item i)
      (get-put (bytes "wanted") (bytes "sortTitle") v item i)
      (get-put (bytes "wanted") (bytes "year") v item i)
      (get-put (bytes "wanted") (bytes "airDate") v item i)

module _ (N : Numbers) (has_trailer_files : Bytes → Bool) where
  -- An item with an id and without a trailer on disk.
  abbrev pub lacks_trailer : Fields → Bool
  lacks_trailer item = elim (get_media_id N item) [
    | none ↦ false
    | some _ ↦ not (has_trailer_files (path_of item))
  ]

  wanted-put :
      (item : Fields) (b : Bool) → is_media_wanted N (put (bytes "wanted") (bool b) item) ≡ b
  unfolding is_media_wanted ◌==◌
  wanted-put item b = rw (at-put (bytes "wanted") (bytes "wanted") (bool b) item) refl

  pub is_media_wanted-set_wanted :
      (item : Fields) → is_media_wanted N (set_wanted N has_trailer_files item) ≡ lacks_trailer item
  unfolding set_wanted
  is_media_wanted-set_wanted item = elim (Option-cases (get_media_id N item)) [
    | inl e ↦ rw (set_wanted, lacks_trailer, e) (wanted-put item false)
    | inr (id, e) ↦
        rw (set_wanted, lacks_trailer, e) (wanted-put item (not (has_trailer_files (path_of item))))
  ]

  light-set_wanted :
      (item : Fields)
      → build_light_item (set_wanted N has_trailer_files item) ≡ build_light_item item
  unfolding set_wanted
  light-set_wanted item = elim (Option-cases (get_media_id N item)) [
    | inl e ↦ rw (set_wanted, e) (light-wanted item (bool false))
    | inr (id, e) ↦
        rw (set_wanted, e) (light-wanted item (bool (not (has_trailer_files (path_of item)))))
  ]

  lights :
      (media : List Fields)
      → map build_light_item (filter_wanted_items N (map (set_wanted N has_trailer_files) media))
        ≡ map build_light_item (filter media lacks_trailer)
  unfolding filter_wanted_items filter
  lights [] = refl
  lights (item ∷ media) = elim (Bool-cases (lacks_trailer item)) [
    | inl y ↦
        rw (is_media_wanted-set_wanted item, y) (λ i. light-set_wanted item i ∷ lights media i)
    | inr n ↦ rw (is_media_wanted-set_wanted item, n) (lights media)
  ]

  -- The wanted index is the list of the light entries of those items that have an id and no
  -- trailer on disk, in order, made of the items as they were before they were marked.
  pub compute_wanted_index-lights :
      (media : List Fields)
      → (compute_wanted_index N has_trailer_files media).1
        ≡ map build_light_item (filter media lacks_trailer)
  unfolding compute_wanted_index
  compute_wanted_index-lights media = lights media
