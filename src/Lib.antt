-- ===== src/Lib.antt =====
-- Verification of the state that trailarr keeps: the store of internal/bbolt.go and
-- internal/redis.go, and the components that keep their data in it.
--
-- trailarr searches, queues and downloads trailers for the media of Radarr and Sonarr. All state that
-- outlives a request is in one store of values, hashes and lists: a bbolt database, or a map in memory
-- while the database cannot be opened. The log of events, the queue of task runs and the queue of
-- downloads are lists of JSON entries there; the extras are entries of hashes.
--
--   Prelude     numbers, integers, lists, byte strings, Go maps; no code of the repository
--   Bbolt       go.etcd.io/bbolt as a parameter: a record of its calls with their documented laws.
--               Bbolt/Content says what a bucket holds, Bbolt/Table is a concrete instance
--   Json        encoding/json as a parameter: the two functions of one type
--   Store       Outcome: the errors. Range: the index arithmetic of LRange and LTrim. Keys: u64ToBytes.
--               Bolt: BoltClient of internal/bbolt.go. Mem: memBolt of internal/redis.go. Client: the
--               singleton Store of internal/redis.go, GetStoreClient and tryUpgradeToBolt.
--               Spec and Hashes: what a store promises of its lists and of its hashes; Bolt/Lists,
--               Mem/Lists, Client/Laws and Hashes/Backends hold what each part keeps of it. Client/Values:
--               Set and Get. Keyed and Client/Keyed: what a store promises of its plain values. Commands:
--               sequences of calls. Log and Recent: a push with a trim to the last entries. Rewrite: a
--               list that is deleted and pushed again
--   History     internal/history.go
--   Tasks       Queue: the queue of runs in internal/tasks.go and internal/queue.go. States: the task
--               states of internal/tasks.go, loaded and saved. Runs: how TaskHandler and runTaskAsync keep
--               the states in memory, with Runs/Steps as a step relation of overlapping runs.
--               Schedules: when tasks are due and first run, with Schedules/Deps for the wait of the extras
--   Downloads   Items: the functions on a loaded queue, internal/download_queue.go and
--               internal/youtube.go. Worker: the queue in the store and the worker
--   Extras      Entries: the collection of internal/extras.go. Merge: the merges of internal/media.go.
--               Merge/Applied: the rejections in an answer. Missing: the extras that internal/extras.go
--               puts in the download queue. Wanted: those that internal/tasks.go puts there, and its wait
--               for the queue. Rejected: the index of rejected extras
--   Slices      internal/sliceutil.go and DeduplicateByKey of internal/youtube.go. Unique: what is kept
--   Values      the values that YAML and JSON decode to, for internal/settings.go and internal/media.go
--   Settings    internal/settings.go. Flags: the flags of yt-dlp. Defaults: EnsureConfigDefaults. File: the
--               configuration file. Sections: extra types, Plex, path mappings, providers, timings
--   Media       internal/media.go. Items: ids, flags, paths and titles of an item. Index: the media lists
--               and their wanted indexes in the store and in memory
--   Health      the issues of the providers, of internal/status.go, internal/tasks.go and internal/routes.go
--   Search      the search for trailers, internal/youtube.go. Lines: the videos of an output. Rounds: the
--               loop over its lines. Terms: all outputs
--   Status      internal/status.go: versions and update warnings
--   Assets      internal/system_update.go: the asset chosen of a release. Chosen: which one it is
--   Tests       runs at concrete inputs
--
-- A method becomes a function from the state to an outcome and the new state; the names are those of
-- the code in lower case (LTrim is ltrim, AppendHistoryEvent is append_history_event). A transaction
-- that fails leaves the database as it was. The mutexes make every call of the map store atomic, and
-- bbolt runs one writing transaction at a time, so that an interleaving is a sequence of calls. The
-- components above the store take any store that keeps the promise; the client they get with each call
-- of GetStoreClient is the state they pass on. Logging, broadcasts, pauses and reads that only feed a
-- log message change no state and are left out.
--
-- Numbers are the native natural numbers; an index is an integer. A list index is below 2^63, so that
-- the sums of int64 do not wrap. Sequence numbers are 64 bits wide, and room for a push is a condition
-- of the theorems. Instants are nanoseconds since the zero time. Loops are structural recursion on the
-- list or on a count of rounds; `work` of Downloads/Worker takes the number of rounds: as many as
-- there are queued items (Downloads/Worker/Drain), and `stream_yt_dlp_output` of Search one round for each
-- line and two more (Search/Rounds). The waits for the download queue and for the providers take the
-- number of polls they may use; from some number on they end (Extras/Wanted/Drain, Tasks/Schedules/Deps)
-- if the others do their part, who are a function of the state and of the instant there.
--
-- YAML, strings.ToLower, fmt.Sscanf and the trailers on disk are parameters; a map of Go that is
-- decoded is the list of its entries, and a float64 is its bit pattern.
--
-- Not modelled: HTTP handlers and routes, the file system, yt-dlp and ffmpeg, TMDB and Plex, posters,
-- the runs of the scheduler after the first one, the web interface.
pub mod Prelude
pub mod Bbolt
pub mod Store
pub mod Json
pub mod Values
pub mod History
pub mod Tasks
pub mod Downloads
pub mod Extras
pub mod Slices
pub mod Settings
pub mod Media
pub mod Health
pub mod Search
pub mod Status
pub mod Assets
pub mod Tests
