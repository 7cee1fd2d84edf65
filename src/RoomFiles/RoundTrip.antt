-- ===== src/RoomFiles/RoundTrip.antt =====
-- frontend/src/utils/persistentFileHandle.ts: what is saved is restored.
use syncwatch.Shared.{ℕ, String, ◌≡◌, true, false, Option, none, some, arith, eq_iff}
use syncwatch.RoomFiles.{
  KeyStore, Stored, Browser, Db, no_key, is_refused, save_handle, restore_room_file,
  restore_from_handle, use_handle, or_from_blob, restore_from_blob, use_blob,
}

-- The browser has IndexedDB and answers its requests.
abbrev pub IsStoring : {Handle File : Type 0} → Browser Handle File → Type 0
IsStoring b =
    (b.has_indexed_db ≡ true)
    × (b.open_ok ≡ true)
    × (b.handle_request_ok ≡ true)
    × (b.blob_request_ok ≡ true)

-- The browser supports and answers everything.
abbrev pub IsWorking : {Handle File : Type 0} → Browser Handle File → Type 0
IsWorking b =
    (b.has_indexed_db ≡ true)
    × (b.has_file_system_access ≡ true)
    × (b.open_ok ≡ true)
    × (b.handle_request_ok ≡ true)
    × (b.blob_request_ok ≡ true)

module _ {Handle File : Type 0} (hs : KeyStore (Stored Handle)) (bs : KeyStore (Stored File))
    (b : Browser Handle File) where
  save_handle-working :
      (room : String) (version : ℕ) (handle : Handle) (db : Db hs bs b)
      → IsWorking b
      → no_key room version ≡ false
      → save_handle hs bs b room version handle db
        ≡ (hs.put room (record { file_version = version; item = handle }) db.0, db.1)
  unfolding save_handle
  save_handle-working room version handle db w k = ground arith

  use_handle-usable :
      (room : String) (version : ℕ) (handle : Handle) (file : File) (o : Option (Stored Handle))
      (db : Db hs bs b)
      → o ≡ some (record { file_version = version; item = handle })
      → is_refused (b.query_permission handle) ≡ false
      → b.get_file handle ≡ some file
      → use_handle hs bs b room version o db
        ≡ (db, some (record { file = file; handle = some handle }))
  unfolding use_handle
  use_handle-usable room version handle file o db e p g = rw e (rw p (rw g (ground arith)))

  pub restore-working :
      (room : String) (version : ℕ) (db : Db hs bs b)
      → IsWorking b
      → no_key room version ≡ false
      → restore_room_file hs bs b room version db
        ≡ or_from_blob hs bs b room version (use_handle hs bs b room version (hs.get room db.0) db)
  unfolding restore_room_file restore_from_handle
  restore-working room version db w k = ground arith

  pub restore-no_handle :
      (room : String) (version : ℕ) (db : Db hs bs b)
      → IsWorking b
      → no_key room version ≡ false
      → hs.get room db.0 ≡ none
      → restore_room_file hs bs b room version db
        ≡ use_blob hs bs b room version (bs.get room db.1) db
  unfolding use_handle or_from_blob restore_from_blob
  restore-no_handle room version db w k e =
      rw (restore-working room version db w k) (rw e (ground arith))

  put-get_handle :
      (room : String) (v : Stored Handle) (s : hs.Store) → hs.get room (hs.put room v s) ≡ some v
  put-get_handle room v s =
      let law = hs.get-put room room v s in let same = eq_iff room room in ground arith

  -- Where the browser supports and answers everything, a handle saved for a room and a file version is
  -- restored with its file, if the handle is not refused and can be read, whatever was stored before;
  -- and restoring changes nothing in the database.
  pub restore-save_handle :
      (room : String) (version : ℕ) (handle : Handle) (file : File) (db : Db hs bs b)
      → IsWorking b
      → no_key room version ≡ false
      → is_refused (b.query_permission handle) ≡ false
      → b.get_file handle ≡ some file
      → let saved = save_handle hs bs b room version handle db in
        restore_room_file hs bs b room version saved
        ≡ (saved, some (record { file = file; handle = some handle }))
  unfolding or_from_blob
  restore-save_handle room version handle file db w k p g =
      rw (save_handle-working room version handle db w k) (
        rw
          (restore-working room version
            (hs.put room (record { file_version = version; item = handle }) db.0, db.1) w k)
          (rw (
            use_handle-usable room version handle file
              (hs.get room (hs.put room (record { file_version = version; item = handle }) db.0))
              (hs.put room (record { file_version = version; item = handle }) db.0, db.1)
              (put-get_handle room (record { file_version = version; item = handle }) db.0) p g)))
