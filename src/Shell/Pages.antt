-- ===== src/Shell/Pages.antt =====
-- frontend/src/App.tsx with frontend/src/pages and frontend/src/components/home/GuestHome.tsx: the page of a route.
use syncwatch.Shared.{String, ◌≡◌, refl, Bool, true, false, none, some, arith, if◌then◌else◌}
use syncwatch.Auth.{
  Auth, login, register, User, RouteView, spinner, sign_in_prompt, children, is_authenticated,
  route_view, protect, open_auth_modal, on_login_me,
}
use syncwatch.Shell.{auth_prompt}

-- The paths that the router knows, and any other.
pub data Route : Type 0 where
  login_path register_path home_path create_path other_path : Route
  room_path : (room_id : String) → Route

pub data Shown : Type 0 where
  waiting dashboard guest_home sign_in_panel not_found : Shown
  room_page : (room_id : String) → Shown

-- `HomePage`
abbrev pub home_page : Auth → Shown
home_page a = if a.is_loading then waiting else if is_authenticated a then dashboard else guest_home

-- A page within `ProtectedRoute`
abbrev pub guarded : RouteView → Shown → Shown
guarded spinner page = waiting
guarded sign_in_prompt page = sign_in_panel
guarded children page = page

unfoldable pub page_of : Route → Auth → Shown
page_of login_path a = home_page a
page_of register_path a = home_page a
page_of home_path a = home_page a
page_of create_path a = guarded (route_view a) dashboard
page_of (room_path room_id) a = guarded (route_view a) (room_page room_id)
page_of other_path a = not_found

-- The effect of the page when it is entered. `sign_in_required` is the text.
unfoldable pub on_enter : (sign_in_required : String) → Route → Auth → Auth
unfolding protect auth_prompt
on_enter sign_in_required login_path a = auth_prompt "Sign in to continue." login a
on_enter sign_in_required register_path a =
    auth_prompt "Create an account or sign in to continue." register a
on_enter sign_in_required home_path a = a
on_enter sign_in_required create_path a = protect sign_in_required a
on_enter sign_in_required (room_path room_id) a = protect sign_in_required a
on_enter sign_in_required other_path a = a

-- The two buttons of `GuestHome`, and the button of the top bar.
unfoldable pub on_guest_create : Auth → Auth
unfolding open_auth_modal
on_guest_create a = open_auth_modal none (some register) a

unfoldable pub on_guest_join : Auth → Auth
unfolding open_auth_modal
on_guest_join a = open_auth_modal none (some login) a

unfoldable pub on_log_in : Auth → Auth
unfolding open_auth_modal
on_log_in a = open_auth_modal none (some login) a

-- The dashboard or a room.
abbrev pub is_inside : Shown → Bool
is_inside dashboard = true
is_inside (room_page room_id) = true
is_inside _ = false

-- The paths that show the dashboard or a room to the users who are signed in.
abbrev pub is_known : Route → Bool
is_known other_path = false
is_known _ = true

-- A guest who enters one of them sees neither the dashboard nor a room, and does once a login has succeeded,
-- with the dialog closed.
pub guest_gets_in :
    (sign_in_required : String) (route : Route) (me : User) (a : Auth)
    → is_known route ≡ true
    → a.is_loading ≡ false
    → a.user ≡ none
    → let entered = on_enter sign_in_required route a in
      let signed_in = on_login_me (some me) entered in
      (is_inside (page_of route entered) ≡ false)
      × (is_inside (page_of route signed_in) ≡ true)
      × (signed_in.auth_modal_open ≡ false)
unfolding on_enter page_of on_login_me protect auth_prompt open_auth_modal
guest_gets_in s login_path me a k h n = rw h (rw n (refl, refl, refl))
guest_gets_in s register_path me a k h n = rw h (rw n (refl, refl, refl))
guest_gets_in s home_path me a k h n = rw h (rw n (refl, refl, refl))
guest_gets_in s create_path me a k h n = rw h (rw n (refl, refl, refl))
guest_gets_in s (room_path room_id) me a k h n = rw h (rw n (refl, refl, refl))
guest_gets_in s other_path me a k h n = absurd (ground arith)
