-- ===== src/Rest.antt =====
-- frontend/src/api/auth.ts and frontend/src/api/rooms.ts: what each call of the server asks for.
pub mod Refusals
use Prim.Native.String.{String, ◌++◌ as append}
use syncwatch.Shared.{ℕ, Option, none, some, List, [], ◌∷◌, ◌++◌, or_else}
use syncwatch.Connection.{Value, num, text, Fields}

pub data Method : Type 0 where
  get post delete : Method

pub record ApiCall : Type 0 where
  pub method : Method
  pub url : String
  pub params : Fields
  pub data_ : Fields

abbrev pub asks : Method → String → Fields → ApiCall
asks method url data_ = record { method = method; url = url; params = []; data_ = data_ }

abbrev pub register : (username email password : String) → ApiCall
register username email password =
    asks post "/auth/register"
      (("username", text username) ∷ ("email", text email) ∷ ("password", text password) ∷ [])

abbrev pub login : (email password : String) → ApiCall
login email password =
    asks post "/auth/login" (("email", text email) ∷ ("password", text password) ∷ [])

abbrev pub refresh_tokens : (refresh_token : String) → ApiCall
refresh_tokens refresh_token =
    asks post "/auth/refresh" (("refresh_token", text refresh_token) ∷ [])

abbrev pub get_me : ApiCall
get_me = asks get "/auth/me" []

abbrev pub create_ws_ticket : (room_id : String) → ApiCall
create_ws_ticket room_id = asks post "/auth/ws-ticket" (("room_id", text room_id) ∷ [])

abbrev pub create_room : (name : String) → ApiCall
create_room name = asks post "/rooms/" (("name", text name) ∷ [])

-- By default the first page, of 20 rooms.
abbrev pub list_rooms : (page size : Option ℕ) → ApiCall
list_rooms page size = record {
  method = get;
  url = "/rooms/";
  params = ("page", num (or_else page 1)) ∷ ("size", num (or_else size 20)) ∷ [];
  data_ = [];
}

abbrev pub room_url : (room_id : String) → String
room_url room_id = append "/rooms/" room_id

abbrev pub get_room : (room_id : String) → ApiCall
get_room room_id = asks get (room_url room_id) []

abbrev pub join_room : (room_code : String) → ApiCall
join_room room_code = asks post "/rooms/join" (("room_code", text room_code) ∷ [])

abbrev pub leave_room : (room_id : String) → ApiCall
leave_room room_id = asks post (append (room_url room_id) "/leave") []

abbrev pub delete_room : (room_id : String) → ApiCall
delete_room room_id = asks delete (room_url room_id) []

-- A parameter that is `undefined` is not sent.
abbrev pub cursor_params : Option String → Fields
cursor_params none = []
cursor_params (some cursor) = ("cursor", text cursor) ∷ []

abbrev pub get_chat_history :
    (room_id : String) (cursor : Option String) (limit : Option ℕ) → ApiCall
get_chat_history room_id cursor limit = record {
  method = get;
  url = append (room_url room_id) "/messages";
  params = cursor_params cursor ++ ("limit", num (or_else limit 50)) ∷ [];
  data_ = [];
}
