-- ===== src/FileSelector/View.antt =====
-- frontend/src/components/room/FileSelector.tsx: the plain file input, and what the selector shows.
use syncwatch.Shared.{
  String, ◌≡◌, refl, Bool, true, false, not, ◌&&◌, Option, none, some, is_truthy, or_else, [],
  if◌then◌else◌,
}
use syncwatch.FileSelector.{
  FileStatus, idle, hashing, verifying, verified, mismatch, error, not_video, LocalFile, Selector,
  Run, process_selected_file,
}
use syncwatch.FileSelector.Restore.{is_busy}

-- `handleFileSelect`: the first of the files of the input, which has no handle.
unfoldable pub handle_file_select :
    {Handle : Type 0} → Option LocalFile → Selector Handle → Run Handle
unfolding process_selected_file
handle_file_select none s = (s, [])
handle_file_select (some file) s = process_selected_file (record { file = file; handle = none }) s

-- The texts of the dictionary that the selector uses.
pub record Texts : Type 0 where
  pub hashing_text : String
  pub verifying_text : String
  pub ready_to_watch : String
  pub st_mismatch_title : String
  pub st_mismatch_sub : String
  pub st_mismatch_btn : String
  pub file_unreadable : String
  pub file_unreadable_sub : String
  pub file_not_video : String
  pub file_not_video_sub : String
  pub choose_file : String
  pub waiting_host_file : String
  pub select_file_host : String
  pub select_file_host_sub : String
  pub select_file_viewer : String
  pub select_file_viewer_sub : String

-- A spinner with the file's name, if it has one; a text with a button, which is disabled or not; or a text
-- alone.
pub data Body : Type 0 where
  spins : (title : String) (file_name : Option String) → Body
  offers : (title sub label : String) (disabled : Bool) → Body
  waits : (title : String) → Body

abbrev pub named : String → Option String
named name = if is_truthy (some name) then some name else none

abbrev pub chooser : Texts → (is_host waits_for_host : Bool) → FileStatus → Body
chooser t is_host waits_for_host status =
    if waits_for_host
    then waits t.waiting_host_file
    else if is_host
    then offers t.select_file_host t.select_file_host_sub t.choose_file (is_busy status)
    else offers t.select_file_viewer t.select_file_viewer_sub t.choose_file (is_busy status)

-- `reason` is that of the last answer, if there was one.
unfoldable pub body :
    Texts
    → (is_host waits_for_host : Bool) (reason : Option String) (file_name : String) → FileStatus
    → Body
body t is_host w reason name hashing = spins t.hashing_text (named name)
body t is_host w reason name verifying = spins t.verifying_text (named name)
body t is_host w reason name verified = spins t.ready_to_watch (named name)
body t is_host w reason name mismatch =
    offers t.st_mismatch_title
      (if is_truthy reason then or_else reason t.st_mismatch_sub else t.st_mismatch_sub)
      t.st_mismatch_btn (is_busy mismatch)
body t is_host w reason name error =
    offers t.file_unreadable t.file_unreadable_sub t.choose_file (is_busy error)
body t is_host w reason name not_video =
    offers t.file_not_video t.file_not_video_sub t.choose_file (is_busy not_video)
body t is_host w reason name idle = chooser t is_host w idle

-- A file can be chosen: there is a button, and it is enabled.
abbrev pub can_choose : Body → Bool
can_choose (offers title sub label disabled) = not disabled
can_choose _ = false

abbrev pub is_under_way : FileStatus → Bool
is_under_way verified = true
is_under_way status = is_busy status

abbrev pub is_idle_status : FileStatus → Bool
is_idle_status idle = true
is_idle_status _ = false

-- A file can be chosen in every state but while one is hashed, verified or taken over, and but for a
-- participant who waits for the host and has chosen none.
pub can_choose-body :
    (t : Texts) (is_host w : Bool) (reason : Option String) (name : String) (status : FileStatus)
    → can_choose (body t is_host w reason name status)
      ≡ (not (is_under_way status) && not (is_idle_status status && w))
unfolding body
can_choose-body t is_host w reason name hashing = refl
can_choose-body t is_host w reason name verifying = refl
can_choose-body t is_host w reason name verified = refl
can_choose-body t is_host w reason name mismatch = refl
can_choose-body t is_host w reason name error = refl
can_choose-body t is_host w reason name not_video = refl
can_choose-body t is_host true reason name idle = refl
can_choose-body t true false reason name idle = refl
can_choose-body t false false reason name idle = refl
