-- ===== src/Media/Index/Fresh.antt =====
-- What is read after a media list was saved, and after its wanted flags were computed.
use trailarr.Prelude.{
  ◌≡◌, refl, ◌∙◌, false, Option, none, some, List, [], Bytes, ◌==◌, ==_refl, arith, if◌then◌else◌,
}
use trailarr.Prelude.Maps.{find, insert, erase, find-erase}
use trailarr.Store.Outcome.{Outcome, ok, err, not_found}
use trailarr.Store.Keyed.{KeyedStore, IsKeyedStore}
use trailarr.Json.{Codec, Encodes}
use trailarr.Values.{Fields}
use trailarr.Media.Index.{
  movies_store_key, series_store_key, movies_wanted_store_key, series_wanted_store_key, Failure,
  store_error, loaded, refused, media_key, wanted_key, MediaState, load_media_from_store,
  save_media_to_store, save_wanted_index, load_wanted_index, parse, invalidate, set_result,
}

-- The two lists, with the key of the list and that of its index.
pub data MediaList : Type 0 where
  movies series : MediaList

abbrev pub main_key : MediaList → Bytes
main_key movies = movies_store_key
main_key series = series_store_key

abbrev pub index_key : MediaList → Bytes
index_key movies = movies_wanted_store_key
index_key series = series_wanted_store_key

pub media_key-main : (l : MediaList) → media_key (main_key l) ≡ some (main_key l)
unfolding media_key ◌==◌
media_key-main movies = refl
media_key-main series = refl

pub wanted_key-main : (l : MediaList) → wanted_key (main_key l) ≡ some (index_key l)
unfolding wanted_key ◌==◌
wanted_key-main movies = refl
wanted_key-main series = refl

pub main-index : (l k : MediaList) → (main_key l == index_key k) ≡ false
unfolding ◌==◌
main-index movies movies = refl
main-index movies series = refl
main-index series movies = refl
main-index series series = refl

pub index-main : (l k : MediaList) → (index_key l == main_key k) ≡ false
unfolding ◌==◌
index-main movies movies = refl
index-main movies series = refl
index-main series movies = refl
index-main series series = refl

module _ (K : KeyedStore) (laws : IsKeyedStore K) (C : Codec (List Fields)) where
  pub loads :
      (s : K.State) (l : MediaList) (media : List Fields) (b : Bytes)
      → K.get s (main_key l) ≡ ok b
      → Encodes C media b
      → load_media_from_store K C s (main_key l) ≡ loaded media
  unfolding load_media_from_store
  loads s l media b e c = rw (load_media_from_store, media_key-main l, e, parse, c.read) refl

  misses :
      (m : MediaState K C) (l : MediaList)
      → find (index_key l) m.wanted_mem ≡ none
      → K.get m.store (index_key l) ≡ err not_found
      → (load_wanted_index K C m (main_key l)).0 ≡ refused (store_error not_found)
  unfolding load_wanted_index
  misses m l e g = rw (load_wanted_index, wanted_key-main l, e, g) refl

  invalidated :
      (m : MediaState K C) (w : Bytes) (r : Outcome (Unit {0}) × K.State)
      → r.0 ≡ ok tt
      → invalidate K C m (some w) r
        ≡ (none, record { store = (K.del r.1 w).1; wanted_mem = erase w m.wanted_mem })
  invalidated m w (ok _, s) h = refl
  invalidated m w (err e, s) h = let no : ⊥ = cc h in absurd no

  pub saves :
      (m : MediaState K C) (l : MediaList) (media : List Fields) (b : Bytes)
      → (K.set m.store (main_key l) b).0 ≡ ok tt
      → Encodes C media b
      → save_media_to_store K C m (main_key l) media ≡ (
        none,
        record {
          store = (K.del (K.set m.store (main_key l) b).1 (index_key l)).1;
          wanted_mem = erase (index_key l) m.wanted_mem;
        },
      )
  unfolding save_media_to_store
  saves m l media b h c =
      rw (save_media_to_store, media_key-main l, c.written, wanted_key-main l)
        (invalidated m (index_key l) (K.set m.store (main_key l) b) h)

  -- After the list `l` was saved as `media`.
  pub record Saved (m : MediaState K C) (l : MediaList) (media : List Fields) (b : Bytes)
      (r : Option Failure × MediaState K C) : Type 0 where
    pub returned : r.0 ≡ none
    pub valid : K.IsValid r.1.store
    pub list : load_media_from_store K C r.1.store (main_key l) ≡ loaded media
    pub index : (load_wanted_index K C r.1 (main_key l)).0 ≡ refused (store_error not_found)
    pub values :
        (j : Bytes)
        → K.get r.1.store j ≡ (
            if index_key l == j
            then err not_found
            else if main_key l == j
            then ok b
            else K.get m.store j)

  -- On a store that keeps the promise, with a key and a value that fit and an encoding of the
  -- list: SaveMediaToStore returns nil, the list loads as saved, its wanted index is gone from
  -- memory and store, and every other key keeps its value.
  pub save_media_to_store-Saved :
      (m : MediaState K C) (l : MediaList) (media : List Fields) (b : Bytes)
      → K.IsValid m.store
      → K.KeyFits (main_key l)
      → K.ValueFits b
      → Encodes C media b
      → Saved m l media b (save_media_to_store K C m (main_key l) media)
  save_media_to_store-Saved m l media b valid kfits vfits c =
      let set = laws.set_lem m.store (main_key l) b valid kfits vfits in
      let del = laws.del_lem (K.set m.store (main_key l) b).1 (index_key l) set.valid in
      let s = (K.del (K.set m.store (main_key l) b).1 (index_key l)).1 in
      let e : K.get s (main_key l) ≡ ok b = ground (
        arith,
        index-main l l,
        ==_refl (main_key l),
        del.values (main_key l),
        set.values (main_key l),
      ) in
      let g : K.get s (index_key l) ≡ err not_found =
        del.values (index_key l) ∙ (rw (==_refl (index_key l)) refl) in
      rw (saves m l media b set.returned c) (record {
        returned = refl;
        valid = del.valid;
        list = loads s l media b e c;
        index =
            misses (record { store = s; wanted_mem = erase (index_key l) m.wanted_mem }) l
              (find-erase (index_key l) (index_key l) m.wanted_mem
                ∙ (rw (==_refl (index_key l)) refl))
              g;
        values = λ j. ground (arith, del.values j, set.values j);
      })

  pub hits :
      (m : MediaState K C) (l : MediaList) (lights : List Fields)
      → find (index_key l) m.wanted_mem ≡ some lights
      → (load_wanted_index K C m (main_key l)).0 ≡ loaded lights
  unfolding load_wanted_index
  hits m l lights e = rw (load_wanted_index, wanted_key-main l, e) refl

  pub reads :
      (s : K.State) (l : MediaList) (lights : List Fields) (b : Bytes)
      → K.get s (index_key l) ≡ ok b
      → Encodes C lights b
      → (load_wanted_index K C (record { store = s; wanted_mem = [] }) (main_key l)).0
        ≡ loaded lights
  unfolding load_wanted_index find
  reads s l lights b e c = rw (load_wanted_index, wanted_key-main l, e, parse, c.read) refl

  pub indexed :
      (m : MediaState K C) (l : MediaList) (lights : List Fields) (b : Bytes)
      → (K.set m.store (index_key l) b).0 ≡ ok tt
      → Encodes C lights b
      → save_wanted_index K C m (main_key l) lights ≡ (
        none,
        record {
          store = (K.set m.store (index_key l) b).1;
          wanted_mem = insert (index_key l) lights m.wanted_mem;
        },
      )
  unfolding save_wanted_index
  indexed m l lights b h c =
      rw (save_wanted_index, wanted_key-main l, c.written)
        (done (record m { wanted_mem = insert (index_key l) lights m.wanted_mem })
          (K.set m.store (index_key l) b) h)
    where
      done :
          (n : MediaState K C) (r : Outcome (Unit {0}) × K.State)
          → r.0 ≡ ok tt
          → set_result K C n r ≡ (none, record n { store = r.1 })
      done n (ok _, s) h = refl
      done n (err e, s) h = let no : ⊥ = cc h in absurd no
