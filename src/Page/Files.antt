-- ===== src/Page/Files.antt =====
-- frontend/src/pages/RoomPage.tsx with frontend/src/components/room/FileSelector.tsx: the local file of the page.
-- The selector counts its object URLs, and `url_of` is the text of a URL; every call of
-- `URL.revokeObjectURL`, the selector's too, goes to the store's trace.
use syncwatch.Shared.{ℕ, String, none, List, [], ◌∷◌, ◌++◌}
use syncwatch.Protocol.{WsMessage}
use syncwatch.Store.{RoomStore, reset_room}
use syncwatch.Session.{RoomClient}
use syncwatch.Handler.{handle}
use syncwatch.FileSelector.{
  Selector, Call, Run, revoke, file_verified, verify_request, idle, on_unmount,
}
use syncwatch.FileSelector.Events.{Event, step}
use syncwatch.RoomPage.{handle_file_verified, handle_verify_request, handle_change_file}
use syncwatch.RoomPage.Notices.{init_notices, on_page_unmount}

pub record Files (Handle : Type 0) : Type 0 where
  pub selector : Selector Handle
  pub room : RoomClient

-- What happens to the selector and to the room. The selector is shown anew after it has gone away: it
-- goes away when a file is there, and comes again when the file is dropped.
pub data FileEvent (Handle : Type 0) : Type 0 where
  selects : Event Handle → FileEvent Handle
  receives : WsMessage → FileEvent Handle
  changes_file : (room_id : String) → FileEvent Handle
  shows_selector : FileEvent Handle

-- The selector of a new mount; a hash that the old one waited for changes nothing any more.
abbrev pub mounted_anew : {Handle : Type 0} → Selector Handle → Selector Handle
mounted_anew s = record s { status = idle; file_name = ""; pending = none; in_flight = [] }

abbrev pub trace : String → RoomStore → RoomStore
trace url s = record s { revoked = url ∷ s.revoked }

module _ {Handle : Type 0} (lower : String → String) (url_of : ℕ → String) where
  -- What the page does with a call of the selector.
  unfoldable pub on_call : Call Handle → RoomClient → RoomClient
  on_call (revoke u) c = record c { store = trace (url_of u) c.store }
  on_call (file_verified u) c = (handle_file_verified (url_of u) c).0
  on_call (verify_request hash size duration_ms name) c =
      (handle_verify_request hash size duration_ms name c).0
  on_call _ c = c

  unfoldable pub on_calls : List (Call Handle) → RoomClient → RoomClient
  unfolding on_call
  on_calls [] c = c
  on_calls (call ∷ calls) c = on_calls calls (on_call call c)

  abbrev pub after_run : Run Handle → RoomClient → Files Handle
  after_run (s, calls) c = record { selector = s; room = on_calls calls c }

  abbrev pub file_step : FileEvent Handle → Files Handle → Files Handle
  file_step (selects e) f = after_run (step lower e f.selector) f.room
  file_step (receives msg) f = record f { room = (handle msg f.room).0 }
  file_step (changes_file room_id) f = record f { room = (handle_change_file room_id f.room).0 }
  file_step shows_selector f =
      let (s, calls) = on_unmount f.selector in after_run (mounted_anew s, calls) f.room

  unfoldable pub file_run : List (FileEvent Handle) → Files Handle → Files Handle
  unfolding on_calls
  file_run [] f = f
  file_run (e ∷ es) f = file_run es (file_step e f)

  -- All URLs that have been revoked when the page has gone away: the selector revokes its pending one, the
  -- socket's cleanup resets the room, and the page's cleanup revokes the one that it shows.
  unfoldable pub on_leave : Files Handle → List String
  unfolding on_calls
  on_leave f =
      let released = on_calls (on_unmount f.selector).1 f.room in
      (on_page_unmount f.room.store.file_url init_notices).1 ++ (reset_room released.store).revoked
