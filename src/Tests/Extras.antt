-- ===== src/Tests/Extras.antt =====
-- The theorems of the extras at a concrete map store.
use trailarr.Prelude.{◌≡◌, refl, none, some, [], ◌∷◌, Bytes, bytes}
use trailarr.Prelude.Int.{pos}
use trailarr.Prelude.Maps.{find}
use trailarr.Store.Mem.{new_mem}
use trailarr.Store.Hashes.Backends.{mem_hashes, mem_hashes-IsHashStore}
use trailarr.Json.{Codec}
use trailarr.Extras.Entries.{ExtrasEntry, entry_key, add_or_update_extra, remove_extra}
use trailarr.Extras.Collection.{BothSet, add_or_update_extra-BothSet, remove_extra-BothSet}
use trailarr.Extras.Merge.{
  Extra, RejectedExtra, key_for, merge_extras, or_first, first_extra, last_extra, merge_extras-find,
  apply_rejected_extras,
}
use trailarr.Extras.Merge.Applied.{Applied, apply_rejected_extras-Applied}

abbrev entry : Bytes → ExtrasEntry
entry status = record {
  media_type = bytes "movie";
  media_id = pos 12;
  media_title = [];
  extra_title = [];
  extra_type = bytes "Trailers";
  file_name = [];
  youtube_id = bytes "y1";
  status = status;
  reason = [];
}

-- A codec that keeps the status only.
abbrev entry_codec : Codec ExtrasEntry
entry_codec = record { marshal = λ e. some e.status; unmarshal = λ b. some (entry b) }

add_or_update_extra_example :
    BothSet mem_hashes mem_hashes-IsHashStore entry_codec new_mem
      (entry_key (bytes "y1") (bytes "movie") (pos 12))
      (bytes "movie")
      (pos 12)
      (some (bytes "downloaded"))
      (add_or_update_extra mem_hashes entry_codec new_mem (entry (bytes "downloaded")))
add_or_update_extra_example =
    add_or_update_extra-BothSet mem_hashes mem_hashes-IsHashStore entry_codec new_mem
      (entry (bytes "downloaded")) (bytes "downloaded") tt tt tt tt
      (record { written = refl; read = refl })

remove_extra_example :
    BothSet mem_hashes mem_hashes-IsHashStore entry_codec new_mem
      (entry_key (bytes "y1") (bytes "movie") (pos 12))
      (bytes "movie")
      (pos 12)
      none
      (remove_extra mem_hashes entry_codec new_mem (bytes "y1") (bytes "movie") (pos 12))
remove_extra_example =
    remove_extra-BothSet mem_hashes mem_hashes-IsHashStore entry_codec new_mem (bytes "y1")
      (bytes "movie") (pos 12)

abbrev extra : Bytes → Extra
extra status = record {
  id = [];
  extra_type = bytes "Trailers";
  extra_title = bytes "T";
  youtube_id = bytes "y1";
  status = status;
  reason = [];
}

merge_extras_example :
    find
      (key_for (extra (bytes "missing")))
      (merge_extras (extra (bytes "downloaded") ∷ []) (extra (bytes "missing") ∷ []))
    ≡ or_first
        (last_extra (key_for (extra (bytes "missing"))) none (extra (bytes "downloaded") ∷ []))
        (first_extra (key_for (extra (bytes "missing"))) (extra (bytes "missing") ∷ []))
merge_extras_example =
    merge_extras-find (key_for (extra (bytes "missing"))) (extra (bytes "downloaded") ∷ [])
      (extra (bytes "missing") ∷ [])

abbrev rejection : RejectedExtra
rejection = record {
  media_type = bytes "movie";
  media_id = pos 12;
  extra_type = bytes "Trailers";
  extra_title = bytes "T";
  youtube_id = bytes "y1";
  reason = bytes "429";
}

apply_rejected_extras_example :
    Applied
      (extra (bytes "missing") ∷ [])
      (rejection ∷ [])
      (apply_rejected_extras (extra (bytes "missing") ∷ []) (rejection ∷ []))
apply_rejected_extras_example =
    apply_rejected_extras-Applied (extra (bytes "missing") ∷ []) (rejection ∷ [])
