-- ===== src/Media/Index/Update.antt =====
-- updateWantedStatusInStore: the list and the index that it leaves.
use trailarr.Prelude.{
  ◌≡◌, refl, ap, sym, subst, ◌∙◌, Bool, Option, none, List, [], map, Bytes, ◌==◌, ==_refl, arith,
  if◌then◌else◌,
}
use trailarr.Prelude.Maps.{insert, erase, find-insert}
use trailarr.Slices.{filter}
use trailarr.Store.Outcome.{ok, err, not_found}
use trailarr.Store.Keyed.{KeyedStore, Answers, IsKeyedStore}
use trailarr.Json.{Codec, Encodes}
use trailarr.Values.{Fields}
use trailarr.Settings.Flags.{Numbers}
use trailarr.Media.Items.{build_light_item, compute_wanted_index}
use trailarr.Media.Items.Wanted.{lacks_trailer, compute_wanted_index-lights}
use trailarr.Media.Index.{
  Failure, loaded, MediaState, load_media_from_store, save_media_to_store, load_wanted_index,
  update_wanted_status_in_store, then_index, save_both,
}
use trailarr.Media.Index.Fresh.{
  MediaList, main_key, index_key, index-main, loads, saves, hits, reads, indexed,
}

module _ (K : KeyedStore) (laws : IsKeyedStore K) (C : Codec (List Fields)) where
  -- After the flags of the list `l` were computed: the list and its index, from memory and after a
  -- restart.
  pub record Fresh (m : MediaState K C) (l : MediaList) (media lights : List Fields) (b c : Bytes)
      (r : Option Failure × MediaState K C) : Type 0 where
    pub returned : r.0 ≡ none
    pub valid : K.IsValid r.1.store
    pub list : load_media_from_store K C r.1.store (main_key l) ≡ loaded media
    pub index : (load_wanted_index K C r.1 (main_key l)).0 ≡ loaded lights
    pub restarted :
        (load_wanted_index K C (record r.1 { wanted_mem = [] }) (main_key l)).0 ≡ loaded lights
    pub values :
        (j : Bytes)
        → K.get r.1.store j
          ≡ (if index_key l == j then ok c else if main_key l == j then ok b else K.get m.store j)

  module _ (m : MediaState K C) (l : MediaList) (media lights : List Fields) (b c : Bytes)
      (valid : K.IsValid m.store) (main_fits : K.KeyFits (main_key l))
      (index_fits : K.KeyFits (index_key l)) (b_fits : K.ValueFits b) (c_fits : K.ValueFits c)
      (eb : Encodes C media b) (ec : Encodes C lights c) where
    saved : MediaState K C
    saved = record {
      store = (K.del (K.set m.store (main_key l) b).1 (index_key l)).1;
      wanted_mem = erase (index_key l) m.wanted_mem;
    }

    final : MediaState K C
    final = record {
      store = (K.set saved.store (index_key l) c).1;
      wanted_mem = insert (index_key l) lights saved.wanted_mem;
    }

    set_main : Answers K m.store (main_key l) (ok b) (K.set m.store (main_key l) b)
    set_main = laws.set_lem m.store (main_key l) b valid main_fits b_fits

    del_index :
        Answers K
          (K.set m.store (main_key l) b).1
          (index_key l)
          (err not_found)
          (K.del (K.set m.store (main_key l) b).1 (index_key l))
    del_index = laws.del_lem (K.set m.store (main_key l) b).1 (index_key l) set_main.valid

    set_index : Answers K saved.store (index_key l) (ok c) (K.set saved.store (index_key l) c)
    unfolding saved
    set_index = laws.set_lem saved.store (index_key l) c del_index.valid index_fits c_fits

    both :
        (N : Numbers) (has_trailer_files : Bytes → Bool)
        → save_both K C N has_trailer_files m (main_key l) (media, lights) ≡ (none, final)
    unfolding saved final
    both N has_trailer_files =
        ap (then_index K C N has_trailer_files (main_key l) lights)
          (saves K laws C m l media b set_main.returned eb)
        ∙ ap (λ r. (none, r.1)) (indexed K laws C saved l lights c set_index.returned ec)

    final-Fresh : Fresh m l media lights b c (none, final)
    unfolding saved final
    final-Fresh = record {
      returned = refl;
      valid = set_index.valid;
      list =
          loads K laws C final.store l media b
            (ground (
              arith,
              index-main l l,
              ==_refl (main_key l),
              set_index.values (main_key l),
              del_index.values (main_key l),
              set_main.values (main_key l),
            ))
            eb;
      index = hits K laws C final l lights (
          find-insert (index_key l) (index_key l) lights saved.wanted_mem
          ∙ (rw (==_refl (index_key l)) refl));
      restarted =
          reads K laws C final.store l lights c
            (set_index.values (index_key l) ∙ (rw (==_refl (index_key l)) refl)) ec;
      values = λ j. ground (arith, set_index.values j, del_index.values j, set_main.values j);
    }

  updated :
      (N : Numbers) (has_trailer_files : Bytes → Bool) (m : MediaState K C) (l : MediaList)
      (media : List Fields)
      → load_media_from_store K C m.store (main_key l) ≡ loaded media
      → update_wanted_status_in_store K C N has_trailer_files m (main_key l)
        ≡ save_both K C N has_trailer_files m
            (main_key l)
            (compute_wanted_index N has_trailer_files media)
  unfolding update_wanted_status_in_store save_media_to_store
  updated N has_trailer_files m l media h = rw (update_wanted_status_in_store, h) refl

  -- On a store that keeps the promise, for a list that loads, with keys and values that fit and
  -- encodings of the marked items and of the index: updateWantedStatusInStore returns nil; the
  -- list holds the marked items, the index holds the light entries of the items with an id and
  -- without a trailer, in memory and after a restart, and every other key keeps its value.
  pub update_wanted_status-Fresh :
      (N : Numbers) (has_trailer_files : Bytes → Bool) (m : MediaState K C) (l : MediaList)
      (media : List Fields) (b c : Bytes)
      → load_media_from_store K C m.store (main_key l) ≡ loaded media
      → K.IsValid m.store
      → K.KeyFits (main_key l)
      → K.KeyFits (index_key l)
      → K.ValueFits b
      → K.ValueFits c
      → Encodes C (compute_wanted_index N has_trailer_files media).0 b
      → Encodes C (map build_light_item (filter media (lacks_trailer N has_trailer_files))) c
      → Fresh m l
          (compute_wanted_index N has_trailer_files media).0
          (map build_light_item (filter media (lacks_trailer N has_trailer_files)))
          b
          c
          (update_wanted_status_in_store K C N has_trailer_files m (main_key l))
  update_wanted_status-Fresh N has_trailer_files m l media b c h valid mf xf bf cf eb ec =
      let marked = (compute_wanted_index N has_trailer_files media).0 in
      let lights = map build_light_item (filter media (lacks_trailer N has_trailer_files)) in
      let e : update_wanted_status_in_store K C N has_trailer_files m (main_key l)
          ≡ (none, final m l marked lights b c valid mf xf bf cf eb ec) =
        updated N has_trailer_files m l media h
        ∙ ap (λ ls. save_both K C N has_trailer_files m (main_key l) (marked, ls))
            (compute_wanted_index-lights N has_trailer_files media)
        ∙ both m l marked lights b c valid mf xf bf cf eb ec N has_trailer_files in
      subst (Fresh m l marked lights b c) (sym e)
        (final-Fresh m l marked lights b c valid mf xf bf cf eb ec)
