-- ===== src/Dashboard/View.antt =====
-- frontend/src/components/home/Dashboard.tsx: what the dashboard shows. `date_of` is how the browser writes the
-- date of a text in a locale.
use syncwatch.Shared.{
  ℕ, String, ◌≡◌, refl, Bool, true, false, not, ◌||◌, Option, none, some, List, [], ◌∷◌, length,
  ltb, ◌==◌, str_eq, trim, utf16_length, arith, if◌then◌else◌,
}
use syncwatch.I18n.{Lang, en, pl}
use syncwatch.Dashboard as Dashboard_
use syncwatch.Dashboard.{
  Room, Answer, on_created, on_joined, Dashboard, Call, create_room, join_room, handle_create,
  handle_join, sorted_rooms, insert_room, sort_onto,
}

pub record Texts : Type 0 where
  pub host : String
  pub viewer : String
  pub file_ready : String
  pub no_file : String
  pub create : String
  pub creating : String
  pub join : String
  pub joining : String

-- A room of the list: its key and name, the badge, whether the badge is the host's, the state of its file, the
-- date, the seats, the code, and whether it can be deleted.
pub record RoomRow : Type 0 where
  pub key : String
  pub name : String
  pub badge : String
  pub file_status : String
  pub created : String
  pub seats : ℕ
  pub room_code : String
  pub has_delete : Bool
  pub last : Bool

-- `FileStatus`
abbrev pub file_status : Texts → (ready : Bool) → String
file_status t ready = if ready then t.file_ready else t.no_file

abbrev pub locale : Lang → String
locale pl = "pl-PL"
locale en = "en-GB"

unfoldable pub room_row :
    Texts
    → (date_of : (locale created_at : String) → String) → Lang
    → Room
    → (is_host last : Bool) → RoomRow
room_row t date_of lang room is_host last = record {
  key = room.id;
  name = room.name;
  badge = if is_host then t.host else t.viewer;
  file_status = file_status t (ltb 0 room.file_version);
  created = date_of (locale lang) room.created_at;
  seats = room.max_participants;
  room_code = room.room_code;
  has_delete = is_host;
  last = last;
}

-- `room.host_id === user?.id`
abbrev pub is_host : Option String → Room → Bool
is_host none room = false
is_host (some user_id) room = str_eq room.host_id user_id

abbrev pub is_empty : List Room → Bool
is_empty [] = true
is_empty (r ∷ rooms) = false

abbrev pub room_rows :
    Texts
    → (date_of : (locale created_at : String) → String) → Lang
    → (user_id : Option String) → List Room
    → List RoomRow
room_rows t date_of lang user_id [] = []
room_rows t date_of lang user_id (r ∷ rooms) =
    room_row t date_of lang r (is_host user_id r) (is_empty rooms)
    ∷ room_rows t date_of lang user_id rooms

-- `none` for the rows is the text that there are no rooms.
pub record View : Type 0 where
  pub create_disabled : Bool
  pub create_label : String
  pub join_disabled : Bool
  pub join_label : String
  pub count : ℕ
  pub rows : Option (List RoomRow)

unfoldable pub view :
    Texts
    → (date_of : (locale created_at : String) → String) → (time : String → ℕ) → Lang
    → (user_id : Option String) → Dashboard
    → View
unfolding room_row sorted_rooms
view t date_of time lang user_id d = record {
  create_disabled = str_eq (trim d.name) "" || d.is_creating;
  create_label = if d.is_creating then t.creating else t.create;
  join_disabled = not (utf16_length (trim d.code) == 8) || d.is_joining;
  join_label = if d.is_joining then t.joining else t.join;
  count = length d.rooms;
  rows =
      if is_empty d.rooms
      then none
      else some (room_rows t date_of lang user_id (sorted_rooms time d.rooms));
}

-- Where the button that creates a room can be pressed, pressing it asks the server once, for the trimmed name; it
-- cannot be pressed again while the answer is out, and it can once the answer is there, whatever it is.
pub create_once :
    (t : Texts) (date_of : (locale created_at : String) → String) (time : String → ℕ) (lang : Lang)
    (user_id : Option String) (messages : Dashboard_.Texts) (answer : Answer Room) (d : Dashboard)
    → (view t date_of time lang user_id d).create_disabled ≡ false
    → let (creating, asked) = handle_create d in
      (asked ≡ create_room (trim d.name) ∷ [])
      × ((view t date_of time lang user_id creating).create_disabled ≡ true)
      × ((view t date_of time lang user_id (on_created messages answer creating).0).create_disabled
          ≡ false)
unfolding view handle_create on_created
create_once t date_of time lang user_id messages answer d on =
    let named : str_eq (trim d.name) "" ≡ false = ground arith in
    rw named (refl, ground arith, ground (arith, named))

-- The same holds of the button that joins a room, which asks for the trimmed code in capitals.
pub join_once :
    (t : Texts) (date_of : (locale created_at : String) → String) (time : String → ℕ) (lang : Lang)
    (user_id : Option String) (upper : String → String) (messages : Dashboard_.Texts)
    (answer : Answer Room) (d : Dashboard)
    → (view t date_of time lang user_id d).join_disabled ≡ false
    → let (joining, asked) = handle_join upper d in
      (asked ≡ join_room (upper (trim d.code)) ∷ [])
      × ((view t date_of time lang user_id joining).join_disabled ≡ true)
      × ((view t date_of time lang user_id (on_joined messages answer joining).0).join_disabled
          ≡ false)
unfolding view handle_join on_joined
join_once t date_of time lang user_id upper messages answer d on =
    let full : utf16_length (trim d.code) == 8 ≡ true = ground arith in
    rw full (refl, ground arith, ground (arith, full))
