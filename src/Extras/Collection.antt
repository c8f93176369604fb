-- ===== src/Extras/Collection.antt =====
-- The two copies of an extra after a write, and what the collection then answers.
use trailarr.Prelude.{
  ◌≡◌, refl, ap, false, ◌&&◌, ◌||◌, Option, none, some, Bytes, ◌==◌, ==_iff, ==_refl, arith,
  if◌then◌else◌,
}
use trailarr.Prelude.Int.{ℤ}
use trailarr.Store.Outcome.{Outcome, ok, err, bad_json}
use trailarr.Store.Hashes.{HashStore, IsHashStore, FieldSet}
use trailarr.Json.{Codec, Encodes}
use trailarr.Extras.Entries.{
  ExtrasEntry, extras_store_key, entry_key, per_media_key, add_or_update_extra,
  get_extra_by_youtube_id, remove_extra, then_hset,
}

-- A media hash is never the global one: its name is longer.
other_key :
    (media_type : Bytes) (id : ℤ) → (extras_store_key == per_media_key media_type id) ≡ false
unfolding per_media_key ◌==◌
other_key media_type id = refl

module _ (H : HashStore) (laws : IsHashStore H) (C : Codec ExtrasEntry) where
  -- The state after both writes: the field is `o` in the two hashes, all else is as before.
  pub record BothSet (s : H.State) (key : Bytes) (media_type : Bytes) (id : ℤ) (o : Option Bytes)
      (r : Outcome (Unit {0}) × H.State) : Type 0 where
    pub returned : r.0 ≡ ok tt
    pub global : H.field r.1 extras_store_key key ≡ o
    pub per_media : H.field r.1 (per_media_key media_type id) key ≡ o
    pub others :
        (j g : Bytes)
        → H.field r.1 j g ≡ (
            if (extras_store_key == j || per_media_key media_type id == j) && (key == g)
            then o
            else H.field s j g)

  twice-BothSet :
      (s : H.State) (key : Bytes) (media_type : Bytes) (id : ℤ) (o : Option Bytes)
      (r q : Outcome (Unit {0}) × H.State)
      → FieldSet H s extras_store_key key o r
      → FieldSet H r.1 (per_media_key media_type id) key o q
      → BothSet s key media_type id o q
  twice-BothSet s key media_type id o r q a b = record {
    returned = b.returned;
    global = ground (
      arith,
      ==_refl key,
      ==_refl extras_store_key,
      ==_iff (per_media_key media_type id) extras_store_key,
      ==_iff extras_store_key (per_media_key media_type id),
      other_key media_type id,
      b.fields extras_store_key key,
      a.fields extras_store_key key,
    );
    per_media = ground (
      arith,
      ==_refl key,
      ==_refl (per_media_key media_type id),
      b.fields (per_media_key media_type id) key,
    );
    others = λ j g. ground (arith, a.fields j g, b.fields j g);
  }

  module _ (s : H.State) (entry : ExtrasEntry) (b : Bytes) where
    abbrev key : Bytes
    key = entry_key entry.youtube_id entry.media_type entry.media_id

    abbrev media_key : Bytes
    media_key = per_media_key entry.media_type entry.media_id

    module _ (global_fits : H.KeyFits extras_store_key) (media_fits : H.KeyFits media_key)
        (key_fits : H.FieldFits key) (value_fits : H.ValueFits b) (e : Encodes C entry b) where
      -- If names and value fit and the entry has an encoding, AddOrUpdateExtra returns nil and
      -- writes it to the global hash and to that of the media; every other field stays.
      pub add_or_update_extra-BothSet :
          BothSet s key entry.media_type entry.media_id (some b) (add_or_update_extra H C s entry)
      unfolding add_or_update_extra
      add_or_update_extra-BothSet =
          let a = laws.hset_lem s extras_store_key key b global_fits key_fits value_fits in
          let q = H.hset s extras_store_key key b in
          let c = laws.hset_lem q.1 media_key key b media_fits key_fits value_fits in
          rw (add_or_update_extra, e.written) (second q a c)
        where
          second :
              (r : Outcome (Unit {0}) × H.State)
              → FieldSet H s extras_store_key key (some b) r
              → FieldSet H r.1 media_key key (some b) (H.hset r.1 media_key key b)
              → BothSet s key entry.media_type entry.media_id
                  (some b)
                  (then_hset H C media_key key b r)
          second (ok _, t) a c =
              twice-BothSet s key entry.media_type entry.media_id (some b) (ok tt, t)
                (H.hset t media_key key b) a c
          second (err x, t) a c = let no : ⊥ = cc a.returned in absurd no

      -- Under the same conditions the entry is then found under its YouTube id, media type and
      -- media id.
      pub get_extra-add_or_update_extra :
          get_extra_by_youtube_id H C
            (add_or_update_extra H C s entry).1
            entry.youtube_id
            entry.media_type
            entry.media_id
          ≡ ok (some entry)
      unfolding get_extra_by_youtube_id
      get_extra-add_or_update_extra =
          let set = add_or_update_extra-BothSet in
          let t = (add_or_update_extra H C s entry).1 in
          rw (get_extra_by_youtube_id, laws.hget_lem t extras_store_key key, set.global)
            (ap (λ o. elim o [ none ↦ err bad_json | some x ↦ ok (some x) ]) e.read)

  module _ (s : H.State) (youtube_id media_type : Bytes) (id : ℤ) where
    -- RemoveExtra returns nil and removes the entry from both hashes; every other field stays.
    pub remove_extra-BothSet :
        BothSet s
          (entry_key youtube_id media_type id)
          media_type
          id
          none
          (remove_extra H C s youtube_id media_type id)
    unfolding remove_extra
    remove_extra-BothSet =
        let k = entry_key youtube_id media_type id in
        let q = H.hdel s extras_store_key k in
        let a = laws.hdel_lem s extras_store_key k in
        let c = laws.hdel_lem q.1 (per_media_key media_type id) k in
        let out =
          twice-BothSet s k media_type id none q (H.hdel q.1 (per_media_key media_type id) k) a c in
        record {
          returned = rw (remove_extra, a.returned) c.returned;
          global = out.global;
          per_media = out.per_media;
          others = out.others;
        }

    -- A removed extra is not found, and that is no error.
    pub get_extra-remove_extra :
        get_extra_by_youtube_id H C
          (remove_extra H C s youtube_id media_type id).1
          youtube_id
          media_type
          id
        ≡ ok none
    unfolding get_extra_by_youtube_id
    get_extra-remove_extra =
        let set = remove_extra-BothSet in
        let t = (remove_extra H C s youtube_id media_type id).1 in
        rw
          (
            get_extra_by_youtube_id,
            laws.hget_lem t extras_store_key (entry_key youtube_id media_type id),
            set.global,
          )
          refl
