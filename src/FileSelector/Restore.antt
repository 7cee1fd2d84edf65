-- ===== src/FileSelector/Restore.antt =====
-- frontend/src/components/room/FileSelector.tsx: choosing with the picker, and the restore of the room's
-- file when the selector is shown. What `restoreRoomFile` and the picker yield are arguments.
use syncwatch.Shared.{
  ℕ, String, ◌≡◌, refl, Bool, true, false, not, ◌&&◌, ◌||◌, Option, none, some, [], arith, ltb,
  ◌==◌, str_eq, eq_refl, is_some, is_truthy, if◌then◌else◌,
}
use syncwatch.Protocol.{RoomStatus, waiting_file}
use syncwatch.FileSelector.{
  FileStatus, idle, hashing, verifying, Selection, Selector, Run, process_selected_file,
}

-- `persistentFileKey`, whose text is the name of the room and the version.
abbrev pub persistent_file_key : String → ℕ → Option (String × ℕ)
persistent_file_key room version =
    if is_truthy (some room) && ltb 0 version then some (room, version) else none

abbrev pub same_key : Option (String × ℕ) → Option (String × ℕ) → Bool
same_key none none = true
same_key (some (r, v)) (some (r', v')) = str_eq r r' && v == v'
same_key _ _ = false

abbrev pub is_idle : FileStatus → Bool
is_idle idle = true
is_idle _ = false

abbrev pub is_busy : FileStatus → Bool
is_busy hashing = true
is_busy verifying = true
is_busy _ = false

abbrev pub is_waiting_file : RoomStatus → Bool
is_waiting_file waiting_file = true
is_waiting_file _ = false

-- The props that the effect reads.
pub record Props : Type 0 where
  pub room_id : String
  pub is_host : Bool
  pub room_status : RoomStatus
  pub reference_file_name : Option String
  pub reference_file_version : ℕ
  pub socket_ready : Bool

-- `isWaitingForHost`
abbrev pub waits_for_host : Props → Bool
waits_for_host p =
    not p.is_host && not (is_truthy p.reference_file_name) && is_waiting_file p.room_status

abbrev pub key_of : Props → Option (String × ℕ)
key_of p = persistent_file_key p.room_id p.reference_file_version

-- The effect goes on to ask for the stored file; `restored` is `restoredFileKeyRef`.
abbrev pub asks_to_restore :
    {Handle : Type 0} → Props → Option (String × ℕ) → Selector Handle → Bool
asks_to_restore p restored s = not (
    not p.socket_ready
    || not (is_some (key_of p))
    || not (is_truthy p.reference_file_name)
    || waits_for_host p
    || not (is_idle s.status)
    || same_key restored (key_of p))

same_key_refl : (k : Option (String × ℕ)) → same_key k k ≡ true
same_key_refl none = refl
same_key_refl (some (r, v)) = ground (arith, eq_refl r)

module _ {Handle : Type 0} where
  -- After `await restoreRoomFile`, with the key of the run that asked.
  unfoldable pub on_restored :
      (cancelled : Bool) (key : Option (String × ℕ))
      → Option (Selection Handle)
      → Option (String × ℕ)
      → Selector Handle
      → Option (String × ℕ) × Run Handle
  on_restored cancelled key none restored s = (restored, (s, []))
  on_restored cancelled key (some found) restored s =
      if cancelled then (restored, (s, [])) else (key, process_selected_file found s)

  -- `handleChooseFile`: `picked` is what the picker yields where it is supported, `none` too for a
  -- failure. The flag says that the plain file input is opened.
  unfoldable pub handle_choose_file :
      (picker_supported : Bool) (picked : Option (Selection Handle))
      → Selector Handle
      → Run Handle × Bool
  handle_choose_file supported none s = ((s, []), not (is_busy s.status))
  handle_choose_file supported (some chosen) s =
      if is_busy s.status
      then ((s, []), false)
      else if supported
      then (process_selected_file chosen s, false)
      else ((s, []), true)

  -- Once a stored file has gone into verification, the same room and version is not restored again, in
  -- whatever state the selector then is.
  pub restored_once :
      (p : Props) (found : Selection Handle) (restored : Option (String × ℕ))
      (s later : Selector Handle)
      → let (key, run) = on_restored false (key_of p) (some found) restored s in
        asks_to_restore p key later ≡ false
  unfolding on_restored
  restored_once p found restored s later = ground (arith, same_key_refl (key_of p))
