-- ===== src/FileSelector/Kept.antt =====
-- frontend/src/components/room/FileSelector.tsx with frontend/src/utils/persistentFileHandle.ts: what the
-- selector keeps of a verified file, and what it finds on the next visit.
use syncwatch.Shared.{
  ℕ, String, ◌≡◌, true, false, Option, none, some, List, [], ◌∷◌, ltb, Bool, not, ◌&&◌, is_some,
}
use syncwatch.RoomFiles.{
  KeyStore, Stored, Browser, Db, save_handle as keep_handle, save_blob as keep_blob, clear,
  max_fallback_blob_bytes, is_refused,
}
use syncwatch.RoomFiles.Copies.{is_of}
use syncwatch.FileSelector.{LocalFile, Call, clear_persisted, save_handle, save_blob}

module _ {Handle : Type 0} (hs : KeyStore (Stored Handle)) (bs : KeyStore (Stored LocalFile))
    (b : Browser Handle LocalFile) where
  -- What the selector's calls do to the stored files of the room.
  unfoldable pub perform : (room : String) → List (Call Handle) → Db hs bs b → Db hs bs b
  perform room [] db = db
  perform room (save_handle version handle ∷ calls) db =
      perform room calls (keep_handle hs bs b room version handle db)
  perform room (save_blob version file ∷ calls) db =
      perform room calls (keep_blob hs bs b room version file db)
  perform room (clear_persisted ∷ calls) db = perform room calls (clear hs bs b room db)
  perform room (_ ∷ calls) db = perform room calls db

  -- What a file needs to be kept. Picked by a handle: the browser supports handles, and this one is not
  -- refused later and still yields the file. Otherwise: it is of at most 1 GiB, and no handle of the
  -- version is stored for the room.
  abbrev pub IsKeepable : String → ℕ → Db hs bs b → LocalFile → Option Handle → Type 0
  IsKeepable room version db file (some handle) =
      (b.has_file_system_access ≡ true)
      × (is_refused (b.query_permission handle) ≡ false)
      × (b.get_file handle ≡ some file)
  IsKeepable room version db file none =
      (ltb max_fallback_blob_bytes (b.size file) ≡ false)
      × (is_of version (hs.get room db.0) ≡ false)

  -- The file was not picked by a handle, and one is stored for the room that the browser can use.
  abbrev pub is_shadowed : String → Db hs bs b → Option Handle → Bool
  is_shadowed room db handle =
      not (is_some handle) && b.has_file_system_access && is_some (hs.get room db.0)
