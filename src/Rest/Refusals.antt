-- ===== src/Rest/Refusals.antt =====
-- frontend/src/api/auth.ts and frontend/src/api/rooms.ts over frontend/src/api/client.ts: what a refused call
-- leads to.
use syncwatch.Shared.{
  ℕ, String, ◌≡◌, refl, Bool, true, false, Option, some, [], ◌∷◌, is_truthy, if◌then◌else◌,
}
use syncwatch.ApiClient.{
  Client, Request, reject, post_refresh, idle, on_response_error, wait_for_refresh, start_refresh,
  is_auth_url,
}
use syncwatch.Rest.{
  ApiCall, register, login, refresh_tokens, get_me, create_ws_ticket, create_room, list_rooms,
  join_room,
}

-- The calls whose address does not depend on a room.
pub data Operation : Type 0 where
  registers : (username email password : String) → Operation
  logs_in : (email password : String) → Operation
  refreshes : (refresh_token : String) → Operation
  asks_me : Operation
  asks_ticket : (room_id : String) → Operation
  creates_room : (name : String) → Operation
  lists_rooms : (page size : Option ℕ) → Operation
  joins_room : (room_code : String) → Operation

abbrev pub call_of : Operation → ApiCall
call_of (registers username email password) = register username email password
call_of (logs_in email password) = login email password
call_of (refreshes refresh_token) = refresh_tokens refresh_token
call_of asks_me = get_me
call_of (asks_ticket room_id) = create_ws_ticket room_id
call_of (creates_room name) = create_room name
call_of (lists_rooms page size) = list_rooms page size
call_of (joins_room room_code) = join_room room_code

-- The calls that say who the user is, and so cannot be mended by another token.
abbrev pub is_credential : Operation → Bool
is_credential (registers username email password) = true
is_credential (logs_in email password) = true
is_credential (refreshes refresh_token) = true
is_credential _ = false

abbrev pub request : Operation → Option String → Request
request op authorization = record {
  url = (call_of op).url;
  is_retry = false;
  authorization = authorization;
}

is_auth_url-call_of : (op : Operation) → is_auth_url (call_of op).url ≡ is_credential op
is_auth_url-call_of (registers username email password) = refl
is_auth_url-call_of (logs_in email password) = refl
is_auth_url-call_of (refreshes refresh_token) = refl
is_auth_url-call_of asks_me = refl
is_auth_url-call_of (asks_ticket room_id) = refl
is_auth_url-call_of (creates_room name) = refl
is_auth_url-call_of (lists_rooms page size) = refl
is_auth_url-call_of (joins_room room_code) = refl

refused :
    (auth : Bool) (r : Request) (token : String) (c : Client)
    → is_auth_url r.url ≡ auth
    → r.is_retry ≡ false
    → c.session_dead ≡ false
    → c.refresh ≡ idle
    → c.refresh_token ≡ some token
    → is_truthy (some token) ≡ true
    → (on_response_error (some 401) r c).1
      ≡ (if auth then reject r ∷ [] else post_refresh token ∷ [])
unfolding on_response_error wait_for_refresh start_refresh
refused true r token c a n d i t h = rw a (rw n refl)
refused false r token c a n d i t h = rw a (rw n (rw d (rw i (rw t (rw h refl)))))

-- In a live session with a refresh token and no refresh under way: a call that the server answers with 401 is
-- rejected at once if it registers, logs in or refreshes, and otherwise asks for new tokens first.
pub refused_call :
    (op : Operation) (authorization : Option String) (token : String) (c : Client)
    → c.session_dead ≡ false
    → c.refresh ≡ idle
    → c.refresh_token ≡ some token
    → is_truthy (some token) ≡ true
    → (on_response_error (some 401) (request op authorization) c).1 ≡ (
        if is_credential op
        then reject (request op authorization) ∷ []
        else post_refresh token ∷ [])
refused_call op authorization token c d i t h =
    refused (is_credential op) (request op authorization) token c (is_auth_url-call_of op) refl d i
      t h
