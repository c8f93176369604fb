-- ===== src/Extras/Entries.antt =====
-- The unified collection of internal/extras.go: each extra is stored under its key in the global
-- hash and in the hash of its media.
use trailarr.Prelude.{
  ℕ, zero, suc, ◌+◌, Bool, false, ◌&&◌, Option, none, some, List, [], ◌∷◌, ◌++◌, map, Bytes, bytes,
  ◌==◌, contains, eqb, if◌then◌else◌,
}
use trailarr.Prelude.Int.{ℤ, pos, negsuc}
use mathlib.Core.List.{reverse}
use trailarr.Store.Outcome.{Outcome, ok, err, not_found, bad_json, ◌>>=◌}
use trailarr.Store.Hashes.{HashStore}
use trailarr.Json.{Codec, decode_all}

pub record ExtrasEntry : Type 0 where
  pub media_type : Bytes
  pub media_id : ℤ
  pub media_title : Bytes
  pub extra_title : Bytes
  pub extra_type : Bytes
  pub file_name : Bytes
  pub youtube_id : Bytes
  pub status : Bytes
  pub reason : Bytes

-- %d of fmt: the digits of a number, the last one first.
abbrev next_digits : List ℕ → List ℕ
next_digits [] = 1 ∷ []
next_digits (d ∷ ds) = let rest = next_digits ds in if eqb d 9 then 0 ∷ rest else (d + 1) ∷ ds

unfoldable pub digits : ℕ → List ℕ
digits zero = 0 ∷ []
digits (suc n) = next_digits (digits n)

unfoldable pub decimal : ℤ → Bytes
unfolding digits
decimal (pos n) = reverse (map (λ d. d + 48) (digits n))
decimal (negsuc n) = 45 ∷ reverse (map (λ d. d + 48) (digits (suc n)))

abbrev pub extras_store_key : Bytes
extras_store_key = bytes "trailarr:extras"

-- extrasEntryKeyFmt, "%s:%s:%d"
unfoldable pub entry_key : Bytes → Bytes → ℤ → Bytes
unfolding decimal
entry_key youtube_id media_type media_id =
    youtube_id ++ bytes ":" ++ media_type ++ bytes ":" ++ decimal media_id

-- perMediaKeyFmt, "trailarr:extras:%s:%d"
unfoldable pub per_media_key : Bytes → ℤ → Bytes
unfolding decimal
per_media_key media_type media_id =
    bytes "trailarr:extras:" ++ media_type ++ bytes ":" ++ decimal media_id

abbrev pub status_rejected : Bytes
status_rejected = bytes "rejected"

module _ (H : HashStore) (C : Codec ExtrasEntry) where
  abbrev pub then_hset :
      Bytes → Bytes → Bytes → Outcome (Unit {0}) × H.State → Outcome (Unit {0}) × H.State
  then_hset key field value (ok _, s) = H.hset s key field value
  then_hset key field value (err e, s) = (err e, s)

  unfoldable pub add_or_update_extra : H.State → ExtrasEntry → Outcome (Unit {0}) × H.State
  add_or_update_extra s entry =
      let key = entry_key entry.youtube_id entry.media_type entry.media_id in
      elim (C.marshal entry) [
        | none ↦ (err bad_json, s)
        | some value ↦
            then_hset (per_media_key entry.media_type entry.media_id) key value
              (H.hset s extras_store_key key value)
      ]

  abbrev read_entry : Bytes → Outcome (Option ExtrasEntry)
  read_entry val = elim (C.unmarshal val) [ none ↦ err bad_json | some entry ↦ ok (some entry) ]

  -- `err == ErrNotFound` answers nil and no error.
  abbrev found_entry : Outcome Bytes → Outcome (Option ExtrasEntry)
  found_entry (err not_found) = ok none
  found_entry (err e) = err e
  found_entry (ok val) = read_entry val

  unfoldable pub get_extra_by_youtube_id :
      H.State → Bytes → Bytes → ℤ → Outcome (Option ExtrasEntry)
  get_extra_by_youtube_id s youtube_id media_type media_id =
      found_entry (H.hget s extras_store_key (entry_key youtube_id media_type media_id))

  -- Both deletes run; with two errors the text of the result names both, here the first stands.
  abbrev both : Outcome (Unit {0}) → Outcome (Unit {0}) → Outcome (Unit {0})
  both (err e) per_media = err e
  both (ok _) per_media = per_media

  unfoldable pub remove_extra : H.State → Bytes → Bytes → ℤ → Outcome (Unit {0}) × H.State
  remove_extra s youtube_id media_type media_id =
      let key = entry_key youtube_id media_type media_id in
      let global = H.hdel s extras_store_key key in
      let per_media = H.hdel global.1 (per_media_key media_type media_id) key in
      (both global.0 per_media.0, per_media.1)

  -- SetExtraRejectedPersistent and UnmarkExtraRejected, without the index that they refresh in the
  -- background.
  unfoldable pub set_extra_rejected_persistent :
      H.State → Bytes → ℤ → Bytes → Bytes → Bytes → Bytes → Outcome (Unit {0}) × H.State
  unfolding add_or_update_extra
  set_extra_rejected_persistent s media_type media_id extra_type extra_title youtube_id reason =
      add_or_update_extra s (record {
        media_type = media_type;
        media_id = media_id;
        media_title = [];
        extra_title = extra_title;
        extra_type = extra_type;
        file_name = [];
        youtube_id = youtube_id;
        status = status_rejected;
        reason = reason;
      })

  -- MarkExtraDownloaded and MarkExtraDeleted.
  unfoldable pub mark_extra :
      Bytes → H.State → Bytes → ℤ → Bytes → Bytes → Bytes → Outcome (Unit {0}) × H.State
  unfolding add_or_update_extra
  mark_extra status s media_type media_id extra_type extra_title youtube_id =
      add_or_update_extra s (record {
        media_type = media_type;
        media_id = media_id;
        media_title = [];
        extra_title = extra_title;
        extra_type = extra_type;
        file_name = [];
        youtube_id = youtube_id;
        status = status;
        reason = [];
      })

  unfoldable pub mark_extra_downloaded :
      H.State → Bytes → ℤ → Bytes → Bytes → Bytes → Outcome (Unit {0}) × H.State
  unfolding mark_extra
  mark_extra_downloaded = mark_extra (bytes "downloaded")

  unfoldable pub mark_extra_deleted :
      H.State → Bytes → ℤ → Bytes → Bytes → Bytes → Outcome (Unit {0}) × H.State
  unfolding mark_extra
  mark_extra_deleted = mark_extra (bytes "deleted")

  unfoldable pub unmark_extra_rejected : H.State → Bytes → ℤ → Bytes → Outcome (Unit {0}) × H.State
  unfolding remove_extra
  unmark_extra_rejected s media_type media_id youtube_id =
      remove_extra s youtube_id media_type media_id

  abbrev is_429 : ExtrasEntry → Bool
  is_429 entry = entry.status == status_rejected && contains entry.reason (bytes "429")

  -- One round of RemoveAll429Rejections, whose deletes may fail without effect on the loop.
  abbrev drop_429 : Option ExtrasEntry → H.State → H.State
  drop_429 none s = s
  drop_429 (some entry) s =
      if is_429 entry
      then (remove_extra s entry.youtube_id entry.media_type entry.media_id).1
      else s

  unfoldable pub drop_429_loop : List Bytes → H.State → H.State
  drop_429_loop [] s = s
  drop_429_loop (v ∷ vs) s = drop_429_loop vs (drop_429 (C.unmarshal v) s)

  unfoldable pub remove_all_429_rejections : H.State → Outcome (Unit {0}) × H.State
  unfolding drop_429_loop
  remove_all_429_rejections s = elim (H.hvals s extras_store_key) [
    | err e ↦ (err e, s)
    | ok vals ↦ (ok tt, drop_429_loop vals s)
  ]

  abbrev eqb_ℤ : ℤ → ℤ → Bool
  eqb_ℤ (pos a) (pos b) = eqb a b
  eqb_ℤ (negsuc a) (negsuc b) = eqb a b
  eqb_ℤ _ _ = false

  unfoldable pub of_media : Bytes → ℤ → List ExtrasEntry → List ExtrasEntry
  of_media media_type media_id [] = []
  of_media media_type media_id (entry ∷ all) =
      let rest = of_media media_type media_id all in
      if entry.media_type == media_type && eqb_ℤ entry.media_id media_id then entry ∷ rest else rest

  abbrev or_global : H.State → Bytes → ℤ → List ExtrasEntry → Outcome (List ExtrasEntry)
  or_global s media_type media_id (entry ∷ result) = ok (entry ∷ result)
  or_global s media_type media_id [] =
      H.hvals s extras_store_key >>= λ vals. ok (of_media media_type media_id (decode_all C vals))

  -- GetExtrasForMedia: the hash of the media, or what the global hash has of it.
  unfoldable pub get_extras_for_media : H.State → Bytes → ℤ → Outcome (List ExtrasEntry)
  unfolding of_media
  get_extras_for_media s media_type media_id =
      H.hvals s (per_media_key media_type media_id) >>= λ vals.
      or_global s media_type media_id (decode_all C vals)
