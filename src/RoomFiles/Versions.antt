-- ===== src/RoomFiles/Versions.antt =====
-- frontend/src/utils/persistentFileHandle.ts: files of another version, and what `clear` leaves.
use syncwatch.Shared.{ℕ, String, ◌≡◌, false, Option, none, some, arith, eq_iff, str_eq, ◌==◌}
use syncwatch.RoomFiles.{
  KeyStore, Stored, Browser, Db, no_key, restore_room_file, use_handle, or_from_blob,
  restore_from_blob, use_blob, clear,
}
use syncwatch.RoomFiles.RoundTrip.{IsWorking, restore-working, restore-no_handle}

module _ {Handle File : Type 0} (hs : KeyStore (Stored Handle)) (bs : KeyStore (Stored File))
    (b : Browser Handle File) where
  pub clear-working :
      (room : String) (version : ℕ) (db : Db hs bs b)
      → IsWorking b
      → no_key room version ≡ false
      → clear hs bs b room db ≡ (hs.delete room db.0, bs.delete room db.1)
  unfolding clear
  clear-working room version db w k = ground arith

  delete-get_handle : (room : String) (s : hs.Store) → hs.get room (hs.delete room s) ≡ none
  delete-get_handle room s =
      let law = hs.get-delete room room s in let same = eq_iff room room in ground arith

  delete-get_blob : (room : String) (s : bs.Store) → bs.get room (bs.delete room s) ≡ none
  delete-get_blob room s =
      let law = bs.get-delete room room s in let same = eq_iff room room in ground arith

  use_blob-none :
      (room : String) (version : ℕ) (o : Option (Stored File)) (db : Db hs bs b)
      → o ≡ none
      → use_blob hs bs b room version o db ≡ (db, none)
  unfolding use_blob
  use_blob-none room version o db e = rw e

  use_handle-stale :
      (room : String) (version : ℕ) (s : Stored Handle) (o : Option (Stored Handle))
      (db : Db hs bs b)
      → o ≡ some s
      → s.file_version == version ≡ false
      → use_handle hs bs b room version o db ≡ (clear hs bs b room db, none)
  unfolding use_handle
  use_handle-stale room version s o db e v = rw e (rw v (ground arith))

  or_from_blob-working :
      (room : String) (version : ℕ) (db : Db hs bs b)
      → IsWorking b
      → or_from_blob hs bs b room version (db, none)
        ≡ use_blob hs bs b room version (bs.get room db.1) db
  unfolding or_from_blob restore_from_blob
  or_from_blob-working room version db w = ground arith

  -- Where the browser supports and answers everything, asking for a file version of a room whose stored
  -- handle is of another version restores nothing, not even a copy of the version asked for, and removes
  -- the room from both stores.
  pub restore-stale_handle :
      (room : String) (version : ℕ) (s : Stored Handle) (db : Db hs bs b)
      → IsWorking b
      → no_key room version ≡ false
      → hs.get room db.0 ≡ some s
      → s.file_version == version ≡ false
      → restore_room_file hs bs b room version db
        ≡ ((hs.delete room db.0, bs.delete room db.1), none)
  restore-stale_handle room version s db w k e v =
      rw (restore-working hs bs b room version db w k) (
        rw (use_handle-stale room version s (hs.get room db.0) db e v) (
          rw (clear-working room version db w k) (
            rw (or_from_blob-working room version (hs.delete room db.0, bs.delete room db.1) w) (
              use_blob-none room version (bs.get room (bs.delete room db.1))
                (hs.delete room db.0, bs.delete room db.1) (delete-get_blob room db.1)))))

  -- Where the browser supports and answers everything, after a room's file is cleared no version of it
  -- is restored, and each other room's handle and copy are found as before.
  pub clear-restore :
      (room other : String) (version : ℕ) (db : Db hs bs b)
      → IsWorking b
      → no_key room version ≡ false
      → str_eq room other ≡ false
      → let cleared = clear hs bs b room db in
        (restore_room_file hs bs b room version cleared ≡ (cleared, none))
        × (hs.get other cleared.0 ≡ hs.get other db.0)
        × (bs.get other cleared.1 ≡ bs.get other db.1)
  clear-restore room other version db w k n = rw (clear-working room version db w k) (
    rw
        (restore-no_handle hs bs b room version (hs.delete room db.0, bs.delete room db.1) w k
          (delete-get_handle room db.0))
        (use_blob-none room version (bs.get room (bs.delete room db.1))
          (hs.delete room db.0, bs.delete room db.1) (delete-get_blob room db.1)),
    (let law = hs.get-delete room other db.0 in ground arith),
    (let law = bs.get-delete room other db.1 in ground arith),
  )
