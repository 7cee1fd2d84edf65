-- ===== src/RoomFiles.antt =====
-- frontend/src/utils/persistentFileHandle.ts: the local file of a room, kept across visits in two
-- stores of IndexedDB: file handles, and copies of small files. The browser is outside: an object store
-- is a `KeyStore` with its documented laws, and what the browser supports and answers is a `Browser`.
pub mod RoundTrip
pub mod Versions
pub mod Copies
pub mod Database
pub mod Upgrade
use syncwatch.Shared.{
  ℕ, ◌*◌, String, ◌≡◌, Bool, true, false, not, ◌&&◌, ◌||◌, Option, none, some, ltb, leb, ◌==◌,
  str_eq, if◌then◌else◌,
}

-- An object store whose key is `roomId`.
pub record KeyStore (V : Type 0) : Type 1 where
  pub Store : Type 0
  pub get : String → Store → Option V
  pub put : String → V → Store → Store
  pub delete : String → Store → Store
  pub get-put :
      (k j : String) (v : V) (s : Store)
      → get j (put k v s) ≡ (if str_eq k j then some v else get j s)
  pub get-delete :
      (k j : String) (s : Store) → get j (delete k s) ≡ (if str_eq k j then none else get j s)

-- `StoredRoomFileHandle` and `StoredRoomFileBlob`, without the key.
pub record Stored (A : Type 0) : Type 0 where
  pub file_version : ℕ
  pub item : A

pub data PickerPermissionState : Type 0 where
  granted denied prompt : PickerPermissionState

-- What the browser has and answers: whether the database opens and each request succeeds; the permission
-- of a handle, if it can be queried; and the file of a handle, if it can be read.
pub record Browser (Handle File : Type 0) : Type 0 where
  pub has_indexed_db : Bool
  pub has_file_system_access : Bool
  pub open_ok : Bool
  pub handle_request_ok : Bool
  pub blob_request_ok : Bool
  pub query_permission : Handle → Option PickerPermissionState
  pub get_file : Handle → Option File
  pub size : File → ℕ

pub record RestoredRoomFile (Handle File : Type 0) : Type 0 where
  pub file : File
  pub handle : Option Handle

-- 1 GiB
abbrev pub max_fallback_blob_bytes : ℕ
max_fallback_blob_bytes = 1024 * 1024 * 1024

-- `permission && permission !== 'granted'`
abbrev pub is_refused : Option PickerPermissionState → Bool
is_refused none = false
is_refused (some granted) = false
is_refused (some denied) = true
is_refused (some prompt) = true

-- `isPersistentFilePickerSupported`
abbrev pub picker_supported : {Handle File : Type 0} → Browser Handle File → Bool
picker_supported b = b.has_indexed_db && b.has_file_system_access

-- `!roomId || fileVersion <= 0`
abbrev pub no_key : String → ℕ → Bool
no_key room version = str_eq room "" || leb version 0

module _ {Handle File : Type 0} (hs : KeyStore (Stored Handle)) (bs : KeyStore (Stored File))
    (b : Browser Handle File) where
  -- The database: the store of handles and the store of copies.
  abbrev pub Db : Type 0
  Db = hs.Store × bs.Store

  unfoldable pub save_handle : String → ℕ → Handle → Db → Db
  save_handle room version handle (h, f) =
      if no_key room version || not (picker_supported b)
      then (h, f)
      else if b.open_ok && b.handle_request_ok
      then (hs.put room (record { file_version = version; item = handle }) h, f)
      else (h, f)

  unfoldable pub save_blob : String → ℕ → File → Db → Db
  save_blob room version file (h, f) =
      if no_key room version || not b.has_indexed_db || ltb max_fallback_blob_bytes (b.size file)
      then (h, f)
      else if b.open_ok && b.blob_request_ok
      then (h, bs.put room (record { file_version = version; item = file }) f)
      else (h, f)

  -- The handle is deleted first; where that fails, the copy stays.
  unfoldable pub clear : String → Db → Db
  clear room (h, f) =
      if str_eq room "" || not b.has_indexed_db || not b.open_ok || not b.handle_request_ok
      then (h, f)
      else (hs.delete room h, if b.blob_request_ok then bs.delete room f else f)

  -- The rest of `restoreFromHandle` after the read.
  pub use_handle :
      String → ℕ → Option (Stored Handle) → Db → Db × Option (RestoredRoomFile Handle File)
  unfolding clear
  use_handle room version none db = (db, none)
  use_handle room version (some stored) db =
      if not (stored.file_version == version)
      then (clear room db, none)
      else if is_refused (b.query_permission stored.item)
      then (db, none)
      else elim (b.get_file stored.item) [
        | none ↦ (clear room db, none)
        | some file ↦ (db, some (record { file = file; handle = some stored.item }))
      ]

  unfoldable pub restore_from_handle : String → ℕ → Db → Db × Option (RestoredRoomFile Handle File)
  unfolding use_handle
  restore_from_handle room version db =
      if not (picker_supported b) || not b.open_ok || not b.handle_request_ok
      then (db, none)
      else use_handle room version (hs.get room db.0) db

  -- The rest of `restoreFromBlob` after the read.
  pub use_blob : String → ℕ → Option (Stored File) → Db → Db × Option (RestoredRoomFile Handle File)
  unfolding clear
  use_blob room version none db = (db, none)
  use_blob room version (some stored) db =
      if not (stored.file_version == version)
      then (clear room db, none)
      else (db, some (record { file = stored.item; handle = none }))

  unfoldable pub restore_from_blob : String → ℕ → Db → Db × Option (RestoredRoomFile Handle File)
  unfolding use_blob
  restore_from_blob room version db =
      if not b.open_ok || not b.blob_request_ok
      then (db, none)
      else use_blob room version (bs.get room db.1) db

  pub or_from_blob :
      String
      → ℕ
      → Db × Option (RestoredRoomFile Handle File)
      → Db × Option (RestoredRoomFile Handle File)
  unfolding restore_from_blob
  or_from_blob room version (db, some restored) = (db, some restored)
  or_from_blob room version (db, none) = restore_from_blob room version db

  unfoldable pub restore_room_file : String → ℕ → Db → Db × Option (RestoredRoomFile Handle File)
  unfolding or_from_blob restore_from_handle
  restore_room_file room version db =
      if no_key room version || not b.has_indexed_db
      then (db, none)
      else or_from_blob room version (restore_from_handle room version db)
