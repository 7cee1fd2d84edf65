-- ===== src/Shell.antt =====
-- frontend/src/components/layout/TopBar.tsx and frontend/src/App.tsx: the menu of the user, and the pages that
-- only ask to sign in.
pub mod Pages
use syncwatch.Shared.{String, Bool, ◌≡◌, refl, false, not, none, some, ◌&&◌, str_eq}
use syncwatch.ApiClient.{clear_auth_storage}
use syncwatch.Auth.{Auth, AuthModalMode, open_auth_modal, logout, route_view, sign_in_prompt}

-- The listeners while the menu is open: the mouse is pressed, inside of the menu or not, or a key.
unfoldable pub on_menu_pointer_down : (inside menu_open : Bool) → Bool
on_menu_pointer_down inside menu_open = menu_open && inside

unfoldable pub on_menu_key : (key : String) (menu_open : Bool) → Bool
on_menu_key key menu_open = menu_open && not (str_eq key "Escape")

-- The button of the menu.
unfoldable pub toggle_menu : (menu_open : Bool) → Bool
toggle_menu menu_open = not menu_open

-- Its entry to log out: the menu, the state of the provider, and where the page goes.
unfoldable pub on_log_out : (menu_open : Bool) → Auth → Bool × Auth × String
unfolding logout
on_log_out menu_open a = (false, logout a, "/")

-- Once the page has loaded, logging out leaves no token and no user, and a protected page shows the prompt
-- to sign in.
pub log_out_lem :
    (menu_open : Bool) (a : Auth)
    → a.is_loading ≡ false
    → let (menu, a', path) = on_log_out menu_open a in
      (menu ≡ false)
      × (a'.client.access_token ≡ none)
      × (a'.client.refresh_token ≡ none)
      × (route_view a' ≡ sign_in_prompt)
unfolding on_log_out logout clear_auth_storage
log_out_lem menu_open a h = (refl, refl, refl, rw h refl)

-- The effect of `AuthPromptPage`.
unfoldable pub auth_prompt : (message : String) (mode : AuthModalMode) → Auth → Auth
unfolding open_auth_modal
auth_prompt message mode a = open_auth_modal (some message) (some mode) a
