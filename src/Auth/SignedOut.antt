-- ===== src/Auth/SignedOut.antt =====
-- frontend/src/contexts/AuthContext.tsx and frontend/src/components/layout/ProtectedRoute.tsx over
-- frontend/src/api/client.ts: what a refused refresh does to who is signed in.
use syncwatch.Shared.{String, ◌≡◌, refl, ap, true, false, none, some, List}
use syncwatch.ApiClient.{Client, Output, posted}
use syncwatch.ApiClient.Events.{refreshed}
use syncwatch.ApiClient.Dead.{refused, step-refused}
use syncwatch.Auth.{
  Auth, login, on_http, heard, handle_logout, protect, open_auth_modal, route_view, sign_in_prompt,
}

pub on_http-refused :
    (a : Auth)
    → a.client.refresh ≡ posted
    → on_http (refreshed none) a ≡ handle_logout (record a { client = refused a.client })
unfolding on_http
on_http-refused a p =
    ap (λ (r : Client × List Output). heard r.1 (record a { client = r.0 }))
      (step-refused a.client p)

-- When the server refuses a refresh and the page has loaded, the user is signed out with both tokens
-- gone, and a protected page shows the prompt to sign in and opens the modal in its login mode with
-- the text of the prompt.
pub refused_refresh_signs_out :
    (sign_in_required : String) (a : Auth)
    → a.client.refresh ≡ posted
    → a.is_loading ≡ false
    → let a' = protect sign_in_required (on_http (refreshed none) a) in
      (a'.user ≡ none)
      × (a'.client.access_token ≡ none)
      × (a'.client.refresh_token ≡ none)
      × (route_view a' ≡ sign_in_prompt)
      × (a'.auth_modal_open ≡ true)
      × (a'.auth_modal_mode ≡ login)
      × (a'.auth_modal_message ≡ some sign_in_required)
unfolding protect open_auth_modal
refused_refresh_signs_out text a p l =
    rw (on_http-refused a p) (rw l (refl, refl, refl, refl, refl, refl, refl))
