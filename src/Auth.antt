-- ===== src/Auth.antt =====
-- frontend/src/contexts/AuthContext.tsx: who is signed in, over the HTTP client of
-- frontend/src/api/client.ts, with frontend/src/components/layout/ProtectedRoute.tsx. The answers of
-- `apiLogin` and `getMe` are arguments, `none` for a failure; a function with an `await` is cut there.
pub mod SignedIn
pub mod Late
pub mod SignedOut
use syncwatch.Shared.{
  String, Bool, true, false, not, ◌&&◌, Option, none, some, List, [], ◌∷◌, any, is_some, is_truthy,
  or_else, if◌then◌else◌,
}
use syncwatch.ApiClient.{Client, Tokens, Output, clear_auth_storage, store_auth_tokens}
use syncwatch.ApiClient.Holding.{is_logout}
use syncwatch.ApiClient.Events.{Event, step}

pub record User : Type 0 where
  pub id : String
  pub username : String
  pub email : String
  pub is_active : Bool
  pub created_at : String

pub data AuthModalMode : Type 0 where
  login register : AuthModalMode

pub record Auth : Type 0 where
  pub client : Client
  pub user : Option User
  pub is_loading : Bool
  pub auth_modal_open : Bool
  pub auth_modal_message : Option String
  pub auth_modal_mode : AuthModalMode

abbrev pub is_authenticated : Auth → Bool
is_authenticated a = is_some a.user

-- The state of the provider before its effects.
unfoldable pub init_auth : Client → Auth
init_auth client = record {
  client = client;
  user = none;
  is_loading = is_truthy client.access_token;
  auth_modal_open = false;
  auth_modal_message = none;
  auth_modal_mode = login;
}

-- The answer to the `getMe` of the first effect, which is asked where a token is stored.
unfoldable pub on_mount_me : Option User → Auth → Auth
unfolding clear_auth_storage
on_mount_me (some me) a = record a { user = some me; is_loading = false }
on_mount_me none a = record a { client = clear_auth_storage a.client; is_loading = false }

-- The listener on `syncwatch:auth-logout`.
abbrev pub handle_logout : Auth → Auth
handle_logout a = record a { user = none }

-- `login` after `apiLogin`, whose failure changes nothing.
unfoldable pub on_login_tokens : Option Tokens → Auth → Auth
unfolding store_auth_tokens
on_login_tokens none a = a
on_login_tokens (some tokens) a = record a { client = store_auth_tokens tokens a.client }

-- The rest of `login`, after its `getMe`.
unfoldable pub on_login_me : Option User → Auth → Auth
on_login_me none a = a
on_login_me (some me) a = record a {
  user = some me;
  auth_modal_open = false;
  auth_modal_message = none;
}

unfoldable pub logout : Auth → Auth
unfolding clear_auth_storage
logout a = record a { client = clear_auth_storage a.client; user = none }

unfoldable pub open_auth_modal : Option String → Option AuthModalMode → Auth → Auth
open_auth_modal message mode a = record a {
  auth_modal_message = message;
  auth_modal_mode = or_else mode login;
  auth_modal_open = true;
}

unfoldable pub close_auth_modal : Auth → Auth
close_auth_modal a = record a { auth_modal_open = false; auth_modal_message = none }

abbrev pub heard : List Output → Auth → Auth
heard out a = if any is_logout out then handle_logout a else a

-- Something happens to the HTTP client, and the provider hears of a logout that it signals.
unfoldable pub on_http : Event → Auth → Auth
on_http e a = let (client, out) = step e a.client in heard out (record a { client = client })

-- What `ProtectedRoute` shows.
pub data RouteView : Type 0 where
  spinner sign_in_prompt children : RouteView

abbrev pub route_view : Auth → RouteView
route_view a =
    if a.is_loading then spinner else if is_authenticated a then children else sign_in_prompt

-- Its effect: who is known not to be signed in gets the modal. `sign_in_required` is the text.
unfoldable pub protect : (sign_in_required : String) → Auth → Auth
unfolding open_auth_modal
protect sign_in_required a =
    if not a.is_loading && not (is_authenticated a)
    then open_auth_modal (some sign_in_required) (some login) a
    else a
