-- ===== src/RoomFiles/Copies.antt =====
-- frontend/src/utils/persistentFileHandle.ts: what becomes of a saved copy of a file.
use syncwatch.Shared.{
  ℕ, String, ◌≡◌, refl, Bool, true, false, ◌&&◌, Option, none, some, is_some, ltb, ◌==◌, arith,
  eq_iff, if◌then◌else◌,
}
use syncwatch.RoomFiles.{
  KeyStore, Stored, Browser, Db, max_fallback_blob_bytes, no_key, save_blob, clear,
  restore_room_file, restore_from_handle, or_from_blob, restore_from_blob, use_blob,
}
use syncwatch.RoomFiles.RoundTrip.{IsStoring, IsWorking, restore-no_handle}
use syncwatch.RoomFiles.Versions.{restore-stale_handle, clear-working}

pub storing-IsWorking :
    {Handle File : Type 0} (b : Browser Handle File)
    → IsStoring b
    → b.has_file_system_access ≡ true
    → IsWorking b
storing-IsWorking b (database, opens, handles, copies) f = (database, f, opens, handles, copies)

-- The stored handle is of the version.
abbrev pub is_of : {Handle : Type 0} → ℕ → Option (Stored Handle) → Bool
is_of version none = false
is_of version (some stored) = stored.file_version == version

module _ {Handle File : Type 0} (hs : KeyStore (Stored Handle)) (bs : KeyStore (Stored File))
    (b : Browser Handle File) where
  save_blob-storing :
      (room : String) (version : ℕ) (file : File) (db : Db hs bs b)
      → IsStoring b
      → no_key room version ≡ false
      → ltb max_fallback_blob_bytes (b.size file) ≡ false
      → save_blob hs bs b room version file db
        ≡ (db.0, bs.put room (record { file_version = version; item = file }) db.1)
  unfolding save_blob
  save_blob-storing room version file db w k small = ground arith

  use_blob-usable :
      (room : String) (version : ℕ) (file : File) (o : Option (Stored File)) (db : Db hs bs b)
      → o ≡ some (record { file_version = version; item = file })
      → use_blob hs bs b room version o db ≡ (db, some (record { file = file; handle = none }))
  unfolding use_blob
  use_blob-usable room version file o db e = rw e (ground arith)

  put-get_blob :
      (room : String) (v : Stored File) (s : bs.Store) → bs.get room (bs.put room v s) ≡ some v
  put-get_blob room v s =
      let law = bs.get-put room room v s in let same = eq_iff room room in ground arith

  restore-unsupported :
      (room : String) (version : ℕ) (db : Db hs bs b)
      → IsStoring b
      → b.has_file_system_access ≡ false
      → no_key room version ≡ false
      → restore_room_file hs bs b room version db
        ≡ use_blob hs bs b room version (bs.get room db.1) db
  unfolding restore_room_file restore_from_handle or_from_blob restore_from_blob
  restore-unsupported room version db w f k = rw f (ground arith)

  -- The database after the copy is put.
  abbrev copied : String → ℕ → File → Db hs bs b → Db hs bs b
  copied room version file db =
      (db.0, bs.put room (record { file_version = version; item = file }) db.1)

  use-copied :
      (room : String) (version : ℕ) (file : File) (db : Db hs bs b)
      → let saved = copied room version file db in
        use_blob hs bs b room version (bs.get room saved.1) saved
        ≡ (saved, some (record { file = file; handle = none }))
  use-copied room version file db =
      use_blob-usable room version file (bs.get room (copied room version file db).1)
        (copied room version file db)
        (put-get_blob room (record { file_version = version; item = file }) db.1)

  restore-copied :
      (supported : Bool) (o : Option (Stored Handle)) (room : String) (version : ℕ) (file : File)
      (db : Db hs bs b)
      → b.has_file_system_access ≡ supported
      → hs.get room db.0 ≡ o
      → is_of version o ≡ false
      → IsStoring b
      → no_key room version ≡ false
      → let saved = copied room version file db in
        restore_room_file hs bs b room version saved ≡ (
          if supported && is_some o
          then (clear hs bs b room saved, none)
          else (saved, some (record { file = file; handle = none })))
  restore-copied false o room version file db f e v w k =
      rw (restore-unsupported room version (copied room version file db) w f k)
        (use-copied room version file db)
  restore-copied true none room version file db f e v w k =
      rw
        (restore-no_handle hs bs b room version (copied room version file db)
          (storing-IsWorking b w f) k e)
        (use-copied room version file db)
  restore-copied true (some s) room version file db f e v w k =
      rw
        (clear-working hs bs b room version (copied room version file db) (storing-IsWorking b w f)
          k)
        (restore-stale_handle hs bs b room version s (copied room version file db)
          (storing-IsWorking b w f) k e v)

  -- Where the browser has IndexedDB and answers its requests, and no handle of the version is stored for the
  -- room, a copy of a file of at most 1 GiB saved for the version is restored, without a handle and with
  -- nothing stored changed; but where the browser supports file handles and one of another version is
  -- stored for the room, nothing is restored and the room is cleared, its new copy included.
  pub restore-save_blob :
      (room : String) (version : ℕ) (file : File) (db : Db hs bs b)
      → IsStoring b
      → no_key room version ≡ false
      → ltb max_fallback_blob_bytes (b.size file) ≡ false
      → is_of version (hs.get room db.0) ≡ false
      → let saved = save_blob hs bs b room version file db in
        restore_room_file hs bs b room version saved ≡ (
          if b.has_file_system_access && is_some (hs.get room db.0)
          then (clear hs bs b room saved, none)
          else (saved, some (record { file = file; handle = none })))
  restore-save_blob room version file db w k small v =
      rw (save_blob-storing room version file db w k small) (
        restore-copied b.has_file_system_access (hs.get room db.0) room version file db refl refl v
          w k)
