-- ===== src/Tests/Media.antt =====
-- The theorems of the media at concrete items, on a database client.
use trailarr.Prelude.{
  ℕ, ◌≤◌, ◌<◌, ◌≡◌, refl, Bool, true, false, Option, none, some, List, [], ◌∷◌, Bytes, bytes, ◌==◌,
  length, inl, inr, arith, map, if◌then◌else◌, has_prefix,
}
use trailarr.Prelude.Int.{pos}
use trailarr.Bbolt.Table.{table_bbolt}
use trailarr.Slices.{filter}
use trailarr.Store.Mem.{Mem}
use trailarr.Store.Client.{Store, World}
use trailarr.Store.Client.Promise.{IsUsable}
use trailarr.Store.Client.Keyed.{client_values, client_values-IsKeyedStore}
use trailarr.Store.Keyed.{IsKeyedStore}
use trailarr.Json.{Codec, Encodes}
use trailarr.Values.{int, text, Fields, end, field, at, get}
use trailarr.Settings.Flags.{Numbers}
use trailarr.Media.Items.{
  get_media_id, parse_media_id, MediaType, movie, mapped_path, build_light_item,
  compute_wanted_index,
}
use trailarr.Media.Items.Wanted.{lacks_trailer}
use trailarr.Media.Items.Paths.{Mapped, mapped_path-Mapped}
use trailarr.Media.Index.{
  movies_store_key, movies_wanted_store_key, MediaState, loaded, load_media_from_store,
  save_media_to_store, update_wanted_status_in_store,
}
use trailarr.Media.Index.Fresh.{movies, main_key, Saved, save_media_to_store-Saved}
use trailarr.Media.Index.Update.{Fresh, update_wanted_status-Fresh}

abbrev numbers : Numbers
numbers = record {
  of_int = λ n. 0;
  truncate = λ x. pos x;
  scan_float = λ s. none;
  scan_int = λ s. none;
}

-- A film with a trailer and one without, as the path says.
abbrev film : Bytes → Fields
film path = field (bytes "id") (int (pos 1)) (field (bytes "path") (text path) end)

abbrev films : List Fields
films = film (bytes "/m/a") ∷ film (bytes "/m/b") ∷ []

abbrev on_disk : Bytes → Bool
on_disk path = path == bytes "/m/a"

abbrev mappings : List (Bytes × Bytes)
mappings = (bytes "/movies/", bytes "/tv/") ∷ (bytes "/movies", bytes "/mnt/movies") ∷ []

mapped_path-Mapped_example :
    Mapped
      (λ s. s)
      movie
      (bytes "/movies/a")
      mappings
      (mapped_path (λ s. s) movie (bytes "/movies/a") mappings)
mapped_path-Mapped_example = mapped_path-Mapped (λ s. s) movie (bytes "/movies/a") mappings

mapped_run : mapped_path (λ s. s) movie (bytes "/movies/a") mappings ≡ some (bytes "/mnt/movies/a")
unfolding mapped_path trailarr.Media.Items.crosses trailarr.Media.Items.contains_any has_prefix
    trailarr.Prelude.contains ◌==◌
mapped_run = refl

abbrev marked : List Fields
marked = (compute_wanted_index numbers on_disk films).0

abbrev lights : List Fields
lights = map build_light_item (filter films (lacks_trailer numbers on_disk))

-- A codec for these lists: by their length when it writes.
abbrev list_codec : Codec (List Fields)
list_codec = record {
  marshal = λ media. elim media [
    | [] ↦ some (bytes "0")
    | x ∷ rest ↦ elim rest [ [] ↦ some (bytes "1") | y ∷ more ↦ some (bytes "2") ]
  ];
  unmarshal = λ b.
      if b == bytes "2"
      then some marked
      else if b == bytes "1"
      then some lights
      else if b == bytes "films"
      then some films
      else none;
}

abbrev memory : Mem
memory = record {
  kv = (movies_store_key, bytes "films") ∷ (movies_wanted_store_key, bytes "1") ∷ [];
  hashes = [];
  lists = [];
}

abbrev client : Store
client = record { on_disk = false; mem = some memory }

abbrev state : MediaState (client_values table_bbolt) list_codec
state = record {
  store = record { disk = []; bolt_client = false; bolt_once = true; store_client = some client };
  wanted_mem = (movies_wanted_store_key, lights) ∷ [];
}

state-IsUsable : IsUsable table_bbolt state.store
state-IsUsable = inr (client, memory, record { client = refl; bolt = refl; mem = refl })

marked-Encodes : Encodes list_codec marked (bytes "2")
unfolding compute_wanted_index ◌==◌
marked-Encodes = record { written = refl; read = refl }

lights-Encodes : Encodes list_codec lights (bytes "1")
unfolding filter get_media_id ◌==◌ at get parse_media_id
lights-Encodes = record { written = refl; read = refl }

save_media_to_store-Saved_example :
    Saved
      (client_values table_bbolt)
      (client_values-IsKeyedStore table_bbolt)
      list_codec
      state
      movies
      marked
      (bytes "2")
      (save_media_to_store (client_values table_bbolt) list_codec state (main_key movies) marked)
save_media_to_store-Saved_example =
    save_media_to_store-Saved (client_values table_bbolt) (client_values-IsKeyedStore table_bbolt)
      list_codec state movies marked (bytes "2") state-IsUsable (omega arith, omega arith)
      (omega arith) marked-Encodes

update_wanted_status-Fresh_example :
    Fresh
      (client_values table_bbolt)
      (client_values-IsKeyedStore table_bbolt)
      list_codec
      state
      movies
      marked
      lights
      (bytes "2")
      (bytes "1")
      (update_wanted_status_in_store
        (client_values table_bbolt)
        list_codec
        numbers
        on_disk
        state
        (main_key movies))
unfolding load_media_from_store trailarr.Media.Index.media_key ◌==◌ trailarr.Store.Client.kv_get
    trailarr.Store.Mem.kv_get trailarr.Prelude.Maps.find
update_wanted_status-Fresh_example =
    update_wanted_status-Fresh (client_values table_bbolt) (client_values-IsKeyedStore table_bbolt)
      list_codec numbers on_disk state movies films (bytes "2") (bytes "1") refl state-IsUsable
      (omega arith, omega arith) (omega arith, omega arith) (omega arith) (omega arith)
      marked-Encodes lights-Encodes

client_values-IsKeyedStore_example : IsKeyedStore (client_values table_bbolt)
client_values-IsKeyedStore_example = client_values-IsKeyedStore table_bbolt
