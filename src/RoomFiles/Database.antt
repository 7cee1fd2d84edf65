-- ===== src/RoomFiles/Database.antt =====
-- frontend/src/utils/persistentFileHandle.ts: opening the database, one request to a store of it, and the file
-- picker. The browser fires events, of which a promise heeds the first that settles it.
use syncwatch.Shared.{
  String, Bool, true, false, ◌||◌, Option, none, some, List, [], ◌∷◌, ◌++◌, any, str_eq,
  if◌then◌else◌,
}

-- `HANDLE_STORE` and `BLOB_STORE`
abbrev pub handle_store : String
handle_store = "room-file-handles"

abbrev pub blob_store : String
blob_store = "room-file-blobs"

abbrev pub contains : String → List String → Bool
contains name names = any (str_eq name) names

abbrev pub create_missing : String → List String → List String
create_missing name names = if contains name names then names else names ++ name ∷ []

-- `onupgradeneeded`, on the names of the object stores
unfoldable pub on_upgrade_needed : List String → List String
on_upgrade_needed names = create_missing blob_store (create_missing handle_store names)

pub data OpenEvent : Type 0 where
  upgrade_needed success error blocked : OpenEvent

-- The names of the stores, and whether the promise is resolved or rejected, once it is.
pub record Opening : Type 0 where
  pub names : List String
  pub outcome : Option Bool

-- What a promise that may be settled becomes.
abbrev pub settle : Bool → Option Bool → Option Bool
settle value none = some value
settle value (some before) = some before

-- `openDatabase`
unfoldable pub on_open_event : OpenEvent → Opening → Opening
unfolding on_upgrade_needed
on_open_event upgrade_needed o = record o { names = on_upgrade_needed o.names }
on_open_event success o = record o { outcome = settle true o.outcome }
on_open_event error o = record o { outcome = settle false o.outcome }
on_open_event blocked o = record o { outcome = settle false o.outcome }

pub data StoreEvent : Type 0 where
  request_success request_error transaction_complete transaction_abort transaction_error :
      StoreEvent

-- `is_cleaned` is whether `cleanup` was called.
pub record StoreRequest : Type 0 where
  pub outcome : Option Bool
  pub is_cleaned : Bool

-- `runStoreRequest`
unfoldable pub on_store_event : (has_cleanup : Bool) → StoreEvent → StoreRequest → StoreRequest
on_store_event has_cleanup request_success r = record r { outcome = settle true r.outcome }
on_store_event has_cleanup request_error r = record r { outcome = settle false r.outcome }
on_store_event has_cleanup transaction_complete r = record r {
  is_cleaned = r.is_cleaned || has_cleanup;
}
on_store_event has_cleanup transaction_abort r = record r { outcome = settle false r.outcome }
on_store_event has_cleanup transaction_error r = record r { outcome = settle false r.outcome }

unfoldable pub store_run : (has_cleanup : Bool) → List StoreEvent → StoreRequest → StoreRequest
unfolding on_store_event
store_run has_cleanup [] r = r
store_run has_cleanup (e ∷ es) r = store_run has_cleanup es (on_store_event has_cleanup e r)

-- What the picker does: there is none, it is left without a file, or a file is picked and can be read or not.
pub data Picking (Handle File : Type 0) : Type 0 where
  unsupported rejects picks_nothing : Picking Handle File
  picks : Handle → Option File → Picking Handle File

-- What `pickPersistentVideoFile` yields: a failure, nothing, or a selection.
pub data Picked (Handle File : Type 0) : Type 0 where
  throws nothing : Picked Handle File
  selection : File → Handle → Picked Handle File

unfoldable pub pick_persistent_video_file :
    {Handle File : Type 0} → Picking Handle File → Picked Handle File
pick_persistent_video_file unsupported = nothing
pick_persistent_video_file rejects = throws
pick_persistent_video_file picks_nothing = nothing
pick_persistent_video_file (picks handle none) = throws
pick_persistent_video_file (picks handle (some file)) = selection file handle
