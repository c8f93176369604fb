-- ===== src/Tests/Rejected.antt =====
-- The theorem of the index of rejected extras on a client in memory.
use trailarr.Prelude.{refl, true, false, none, some, List, [], ◌∷◌, Bytes, bytes, ◌==◌, arith, inr}
use trailarr.Prelude.Int.{pos}
use trailarr.Prelude.Maps.{find}
use trailarr.Bbolt.Table.{table_bbolt}
use trailarr.Slices.{filter}
use trailarr.Store.Mem.{Mem}
use trailarr.Store.Client.{Store, World, hvals}
use trailarr.Store.Client.Promise.{IsUsable}
use trailarr.Store.Client.Keyed.{client_values, client_values-IsKeyedStore}
use trailarr.Json.{Codec}
use trailarr.Values.{Fields}
use trailarr.Settings.Flags.{Numbers}
use trailarr.Extras.Entries.{ExtrasEntry, extras_store_key}
use trailarr.Extras.Rejected.{is_rejected, RejectedState, save_rejected_index}
use trailarr.Extras.Rejected.Fresh.{Indexed, save_rejected_index-Indexed}

abbrev numbers : Numbers
numbers = record {
  of_int = λ n. 0;
  truncate = λ x. pos x;
  scan_float = λ s. none;
  scan_int = λ s. none;
}

-- An extra of a status, with a title of its media.
abbrev extra : Bytes → ExtrasEntry
extra status = record {
  media_type = bytes "movie";
  media_id = pos 1;
  media_title = bytes "m";
  extra_title = [];
  extra_type = bytes "Trailers";
  file_name = [];
  youtube_id = bytes "y";
  status = status;
  reason = [];
}

abbrev entry_codec : Codec ExtrasEntry
entry_codec = record { marshal = λ e. some e.status; unmarshal = λ b. some (extra b) }

abbrev all : List ExtrasEntry
all = extra (bytes "rejected") ∷ extra (bytes "downloaded") ∷ []

-- One list is all that is encoded here.
abbrev list_codec : Codec (List ExtrasEntry)
list_codec = record {
  marshal = λ es. some (bytes "r");
  unmarshal = λ b. some (extra (bytes "rejected") ∷ []);
}

abbrev media_codec : Codec (List Fields)
media_codec = record { marshal = λ media. none; unmarshal = λ b. none }

abbrev memory : Mem
memory = record {
  kv = [];
  hashes =
      (extras_store_key, (bytes "a", bytes "rejected") ∷ (bytes "b", bytes "downloaded") ∷ []) ∷ [];
  lists = [];
}

abbrev client : Store
client = record { on_disk = false; mem = some memory }

abbrev world : World table_bbolt
world = record { disk = []; bolt_client = false; bolt_once = true; store_client = some client }

world-IsUsable : IsUsable table_bbolt world
world-IsUsable = inr (client, memory, record { client = refl; bolt = refl; mem = refl })

abbrev state :
    RejectedState numbers
      (client_values table_bbolt)
      media_codec
      entry_codec
      list_codec
      (λ w. hvals table_bbolt w extras_store_key)
state = record { store = world; rejected_index_mem = some [] }

save_rejected_index-Indexed_example :
    Indexed numbers
      (client_values table_bbolt)
      media_codec
      entry_codec
      list_codec
      (λ w. hvals table_bbolt w extras_store_key)
      state
      (filter all is_rejected)
      (bytes "r")
      (save_rejected_index numbers
        (client_values table_bbolt)
        media_codec
        entry_codec
        list_codec
        (λ w. hvals table_bbolt w extras_store_key)
        state)
unfolding hvals filter ◌==◌ find trailarr.Extras.Rejected.get_all_extras trailarr.Store.Mem.hvals
    trailarr.Json.decode_all
save_rejected_index-Indexed_example =
    save_rejected_index-Indexed numbers (client_values table_bbolt) media_codec entry_codec
      list_codec (λ w. hvals table_bbolt w extras_store_key)
      (client_values-IsKeyedStore table_bbolt) state all (bytes "r") refl world-IsUsable
      (omega arith, omega arith) (omega arith) (record { written = refl; read = refl })
