-- ===== src/Tests/Lists.antt =====
-- The theorems of the store at concrete states of both back ends.
use trailarr.Prelude.{
  ℕ, ◌+◌, ◌^◌, ◌≤◌, ◌<◌, ◌≡◌, refl, ap, sym, ◌∙◌, Bool, true, false, Option, none, some, List, [],
  ◌∷◌, ◌++◌, Bytes, bytes, set, length, ◌==◌, inl, inr, arith, take, drop,
}
use trailarr.Prelude.Int.{pos, negsuc}
use trailarr.Bbolt.Table.{table_bbolt}
use trailarr.Store.Outcome.{Outcome}
use trailarr.Store.Keys.{u64_to_bytes, u64_to_bytes_mono}
use trailarr.Prelude.{bytes_ltb}
use trailarr.Store.Range.{slice}
use trailarr.Store.Spec.{Replaced, remove_count}
use trailarr.Store.Bolt.Lists
use trailarr.Store.Bolt.Lists.{IsListDb, bolt_store}
use trailarr.Store.Mem.{Mem, new_mem}
use trailarr.Store.Mem.Lists.{mem_store}
use trailarr.Store.Commands.{ListCommand, pushes, trims, reads, sets, removes, replies, Agree}
use trailarr.Store.Commands.Backends.{replies-bolt_store}
use trailarr.Store.Client.{Store, World, rpush, ltrim, lrem, get_store_client, attempts}
use trailarr.Store.Client.Promise.{IsUsable, store_view, client_store}
use trailarr.Store.Client.Laws.{rpush_lem, ltrim_lem, lrem_lem}
use trailarr.Store.Client.Start.{IsStarted, get_store_client-IsUsable, get_store_client-store_view}

abbrev key : Bytes
key = bytes "q"

abbrev a : Bytes
a = bytes "a"

abbrev b : Bytes
b = bytes "b"

empty-IsListDb : IsListDb table_bbolt []
unfolding trailarr.Bbolt.Table.find
empty-IsListDb = record { at = λ k. tt }

abbrev disk_client : Store
disk_client = record { on_disk = true; mem = none }

abbrev on_disk : World table_bbolt
on_disk = record {
  disk = [];
  bolt_client = true;
  bolt_once = true;
  store_client = some disk_client;
}

on_disk-IsUsable : IsUsable table_bbolt on_disk
on_disk-IsUsable =
    inl (disk_client, record { client = refl; bolt = refl; numbered = empty-IsListDb })

abbrev pushed : Outcome (Unit {0}) × World table_bbolt
pushed = rpush table_bbolt on_disk key a

pushed-Replaced : Replaced (client_store table_bbolt) on_disk key (a ∷ []) pushed
unfolding trailarr.Bbolt.Table.find
pushed-Replaced =
    rpush_lem table_bbolt on_disk key a on_disk-IsUsable (omega arith) (omega arith)
      (λ _. omega arith)

pushed_view : store_view table_bbolt pushed.1 key ≡ a ∷ []
unfolding ◌==◌
pushed_view = pushed-Replaced.views key

rpush_example :
    Replaced (client_store table_bbolt) on_disk key (a ∷ []) (rpush table_bbolt on_disk key a)
unfolding trailarr.Bbolt.Table.find
rpush_example =
    rpush_lem table_bbolt on_disk key a on_disk-IsUsable (omega arith) (omega arith)
      (λ _. omega arith)

ltrim_example :
    Replaced
      (client_store table_bbolt)
      pushed.1
      key
      (slice (store_view table_bbolt pushed.1 key) (negsuc 0) (negsuc 0))
      (ltrim table_bbolt pushed.1 key (negsuc 0) (negsuc 0))
ltrim_example = ltrim_lem table_bbolt pushed.1 key (negsuc 0) (negsuc 0) pushed-Replaced.valid

lrem_example :
    Replaced
      (client_store table_bbolt)
      pushed.1
      key
      (remove_count (pos 1) a (store_view table_bbolt pushed.1 key))
      (lrem table_bbolt pushed.1 key (pos 1) a)
lrem_example = lrem_lem table_bbolt pushed.1 key (pos 1) a pushed-Replaced.valid (omega arith)

-- A database that cannot be opened: the first call gives the map store.
abbrev fresh : World table_bbolt
fresh = record { disk = []; bolt_client = false; bolt_once = false; store_client = none }

fresh-IsStarted : IsStarted table_bbolt fresh
fresh-IsStarted = record { numbered = empty-IsListDb; client = inl refl }

get_store_client_example : IsUsable table_bbolt (get_store_client table_bbolt false false fresh)
get_store_client_example = get_store_client-IsUsable table_bbolt false false fresh fresh-IsStarted

abbrev memory : Mem
memory = record { kv = []; hashes = []; lists = (key, a ∷ b ∷ []) ∷ [] }

abbrev memory_client : Store
memory_client = record { on_disk = false; mem = some memory }

abbrev in_memory : World table_bbolt
in_memory = record {
  disk = [];
  bolt_client = false;
  bolt_once = true;
  store_client = some memory_client;
}

upgrade_example :
    store_view table_bbolt (get_store_client table_bbolt false true in_memory) key
    ≡ Lists.view table_bbolt [] key
unfolding attempts
upgrade_example =
    get_store_client-store_view table_bbolt false true in_memory memory_client memory key
      (record { client = refl; bolt = refl; mem = refl }) refl

u64_to_bytes_example : bytes_ltb (u64_to_bytes 255) (u64_to_bytes 256) ≡ true
u64_to_bytes_example = u64_to_bytes_mono 255 256 (omega arith) (omega arith)

-- Calls that both back ends allow, from an empty database and an empty map.
abbrev calls : List ListCommand
calls =
    pushes key a
    ∷ sets key (pos 0) b
    ∷ reads key (pos 0) (negsuc 0)
    ∷ trims key (negsuc 0) (negsuc 0)
    ∷ removes key (pos 1) a
    ∷ []

empty-Agree : Agree (bolt_store table_bbolt) mem_store [] new_mem
unfolding trailarr.Bbolt.Table.find new_mem trailarr.Prelude.Maps.find
empty-Agree = record { left = empty-IsListDb; right = tt; views = λ k. refl }

replies-bolt_store_example :
    replies (bolt_store table_bbolt) [] calls ≡ replies mem_store new_mem calls
unfolding trailarr.Bbolt.Table.find
replies-bolt_store_example =
    replies-bolt_store table_bbolt [] new_mem calls empty-Agree
      ((omega arith, omega arith, omega arith), (omega arith, (tt, (tt, (omega arith, tt)))))
      ((tt, tt, tt), (tt, (tt, (tt, (tt, tt)))))
