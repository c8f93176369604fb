-- ===== src/Store/Commands/Backends.antt =====
-- The two back ends of the store, BoltClient and memBolt, under the same calls.
use trailarr.Prelude.{◌≡◌, List}
use trailarr.Bbolt.{Bbolt}
use trailarr.Store.Bolt.Lists.{bolt_store}
use trailarr.Store.Bolt.Lists.Promise.{bolt_store-IsListStore}
use trailarr.Store.Mem.{Mem}
use trailarr.Store.Mem.Lists.{mem_store, mem_store-IsListStore}
use trailarr.Store.Commands.{ListCommand, replies, AllAllowed, Agree, replies-Agree}

-- From a database with numbered lists and a map store that hold the same lists, BoltClient and
-- memBolt give the same replies to every sequence of list calls that bbolt allows (names and
-- values that fit, room for each push).
pub replies-bolt_store :
    (B : Bbolt) (d : B.Db) (m : Mem) (cs : List ListCommand)
    → Agree (bolt_store B) mem_store d m
    → AllAllowed (bolt_store B) d cs
    → AllAllowed mem_store m cs
    → replies (bolt_store B) d cs ≡ replies mem_store m cs
replies-bolt_store B =
    replies-Agree (bolt_store B) mem_store (bolt_store-IsListStore B) mem_store-IsListStore
