-- ===== src/Dashboard.antt =====
-- frontend/src/components/home/Dashboard.tsx: creating, joining, opening and deleting rooms. A handler with
-- an `await` is cut there: what the server answers is an argument of the rest. `t` is the dictionary,
-- `upper` is `toUpperCase`, and `time` is the time of a date's text.
pub mod Rooms
pub mod Code
pub mod View
use Prim.Native.Char.{code}
use Prim.Native.String.{String}
use syncwatch.Shared.{
  ℕ, Bool, true, false, not, Option, none, some, List, [], ◌∷◌, ◌++◌, ltb, ◌==◌, str_eq, trim,
  utf16_length, if◌then◌else◌, zero, suc, leb, ◌&&◌, ◌||◌,
}
use syncwatch.Navigation.{
  Tone, neutral, primary, success, warning, danger, HomeArrivalNotice, HomeArrivalNoticeKey,
}
use syncwatch.Session.{ToastOptions}
use syncwatch.Ui.{ConfirmConfig}

pub record Room : Type 0 where
  pub id : String
  pub name : String
  pub room_code : String
  pub host_id : String
  pub is_active : Bool
  pub max_participants : ℕ
  pub file_version : ℕ
  pub created_at : String

-- The texts of the dictionary that the dashboard uses.
pub record Texts : Type 0 where
  pub err_load_rooms : String
  pub err_create_room : String
  pub err_join_room : String
  pub delete_room_q : String
  pub delete_room_sub : String
  pub delete_room_btn : String
  pub keep_room : String
  pub toast_room_deleted_title : String
  pub toast_room_deleted_sub : String
  pub toast_delete_failed_title : String
  pub copied : String
  pub err_copy_unavailable : String
  pub arrival_title : HomeArrivalNoticeKey → String
  pub arrival_sub : HomeArrivalNoticeKey → String

pub record Dashboard : Type 0 where
  pub rooms : List Room
  pub name : String
  pub code : String
  pub is_creating : Bool
  pub is_joining : Bool

-- The answer of the server: a value, or a failure with the detail of its response.
pub data Answer (A : Type 0) : Type 0 where
  ok : A → Answer A
  failed : (detail : Option String) → Answer A

pub data Call : Type 0 where
  list_rooms : Call
  create_room : (name : String) → Call
  join_room : (code : String) → Call
  delete_room : (id : String) → Call
  ask : ConfirmConfig → Call
  toast : ToastOptions → Call
  -- `navigate('/room/' + id)`
  enter_room : (id : String) → Call
  -- `navigate(…, { replace: true, state: null })`
  clear_location_state : Call

abbrev pub Run : Type 0
Run = Dashboard × List Call

abbrev pub failure_toast : String → Option String → Call
failure_toast title detail =
    toast (record { title = title; description = detail; tone = some danger; duration_ms = none })

-- `fetchRooms`, after its request.
unfoldable pub on_rooms : Texts → Answer (List Room) → Dashboard → Run
on_rooms t (ok rooms) d = (record d { rooms = rooms }, [])
on_rooms t (failed detail) d = (
  d,
  toast (record {
    title = t.err_load_rooms;
    description = none;
    tone = some warning;
    duration_ms = none;
  })
      ∷ [],
)

abbrev pub shown_tone : Tone → Tone
shown_tone neutral = primary
shown_tone tone = tone

-- The effect on the notice or the flash with which the user arrived.
unfoldable pub on_arrival :
    Texts → (notice : Option HomeArrivalNotice) (flash : Option String) → List Call
on_arrival t (some notice) flash =
    toast (record {
      title = t.arrival_title notice.key;
      description = some (t.arrival_sub notice.key);
      tone = some (shown_tone notice.tone);
      duration_ms = some 4200;
    })
    ∷ clear_location_state
    ∷ []
on_arrival t none none = []
on_arrival t none (some flash) =
    if str_eq flash ""
    then []
    else toast
        (record { title = flash; description = none; tone = some primary; duration_ms = some 4200 })
      ∷ clear_location_state
      ∷ []

-- The field of the name.
unfoldable pub on_name : String → Dashboard → Dashboard
on_name value d = record d { name = value }

-- `[A-Z0-9]`
abbrev pub is_code_char : ℕ → Bool
is_code_char c = (leb b'A' c && leb c b'Z') || (leb b'0' c && leb c b'9')

-- `.replace(/[^A-Z0-9]/g, '')`
abbrev pub keep_code_chars : String → String
keep_code_chars String.[] = ""
keep_code_chars (String.◌∷◌ c s) =
    let rest = keep_code_chars s in if is_code_char (code c) then String.◌∷◌ c rest else rest

-- `.slice(0, count)` of a text in which every character is one unit
abbrev pub slice_to : (count : ℕ) → String → String
slice_to zero s = ""
slice_to (suc count) String.[] = ""
slice_to (suc count) (String.◌∷◌ c s) = String.◌∷◌ c (slice_to count s)

-- The field of the code.
unfoldable pub on_code : (upper : String → String) → String → Dashboard → Dashboard
on_code upper value d = record d { code = slice_to 8 (keep_code_chars (upper value)) }

unfoldable pub handle_create : Dashboard → Run
handle_create d =
    if str_eq (trim d.name) ""
    then (d, [])
    else (record d { is_creating = true }, create_room (trim d.name) ∷ [])

abbrev pub entered : String → Answer Room → List Call
entered title (ok room) = enter_room room.id ∷ []
entered title (failed detail) = failure_toast title detail ∷ []

unfoldable pub on_created : Texts → Answer Room → Dashboard → Run
on_created t answer d = (record d { is_creating = false }, entered t.err_create_room answer)

unfoldable pub handle_join : (upper : String → String) → Dashboard → Run
handle_join upper d =
    if utf16_length (trim d.code) == 8
    then (record d { is_joining = true }, join_room (upper (trim d.code)) ∷ [])
    else (d, [])

unfoldable pub on_joined : Texts → Answer Room → Dashboard → Run
on_joined t answer d = (record d { is_joining = false }, entered t.err_join_room answer)

-- Opening a room of the list joins it again first.
unfoldable pub handle_open : Room → List Call
handle_open room = join_room room.room_code ∷ []

-- The room that is entered is the one of the list, not the answer's.
unfoldable pub on_opened : Texts → Room → Answer Room → List Call
on_opened t room (ok joined) = enter_room room.id ∷ []
on_opened t room (failed detail) = failure_toast t.err_join_room detail ∷ []

unfoldable pub handle_delete : Texts → List Call
handle_delete t =
    ask (record {
      eyebrow = none;
      title = t.delete_room_q;
      description = t.delete_room_sub;
      confirm_label = some t.delete_room_btn;
      cancel_label = some t.keep_room;
      tone = some danger;
    })
    ∷ []

unfoldable pub on_delete_confirmed : Room → Bool → List Call
on_delete_confirmed room confirmed = if confirmed then delete_room room.id ∷ [] else []

unfoldable pub on_deleted : Texts → Answer Unit → List Call
on_deleted t (ok _) =
    toast (record {
      title = t.toast_room_deleted_title;
      description = some t.toast_room_deleted_sub;
      tone = some success;
      duration_ms = none;
    })
    ∷ list_rooms
    ∷ []
on_deleted t (failed detail) = failure_toast t.toast_delete_failed_title detail ∷ []

unfoldable pub handle_copy : Texts → Call
handle_copy t =
    toast (record {
      title = t.copied;
      description = none;
      tone = some success;
      duration_ms = some 2000;
    })

unfoldable pub handle_copy_error : Texts → Call
handle_copy_error t = toast (record {
  title = t.err_copy_unavailable;
  description = none;
  tone = some warning;
  duration_ms = none;
})

-- Where a room goes in a list whose newest room is first: behind the rooms that are as new or newer.
abbrev pub insert_room : (time : String → ℕ) → Room → List Room → List Room
insert_room time room [] = room ∷ []
insert_room time room (r ∷ rooms) =
    let rest = insert_room time room rooms in
    if ltb (time r.created_at) (time room.created_at) then room ∷ r ∷ rooms else r ∷ rest

abbrev pub sort_onto : (time : String → ℕ) → List Room → List Room → List Room
sort_onto time sorted [] = sorted
sort_onto time sorted (r ∷ rooms) = sort_onto time (insert_room time r sorted) rooms

-- `[...rooms].sort(…)`, which is stable.
unfoldable pub sorted_rooms : (time : String → ℕ) → List Room → List Room
sorted_rooms time rooms = sort_onto time [] rooms
