-- ===== src/Auth/Late.antt =====
-- frontend/src/contexts/AuthContext.tsx: answers that come late: to the provider's first question after a
-- login, and to a login's `getMe` after a logout.
use syncwatch.Shared.{◌≡◌, refl, true, false, none, some, is_truthy}
use syncwatch.ApiClient.{Client, Tokens, posted, clear_auth_storage, store_auth_tokens}
use syncwatch.ApiClient.Events.{refreshed}
use syncwatch.Auth.{
  User, Auth, init_auth, on_mount_me, on_login_tokens, on_login_me, on_http, logout, route_view,
  children,
}
use syncwatch.Auth.SignedOut.{on_http-refused}

-- Where a token was stored when the provider started and a login succeeds before its first `getMe` is
-- answered: if that answer is a failure, the login's new tokens are removed while its user is still shown
-- as signed in; if it is another user, that user is shown over the login's tokens.
pub late_answer :
    (tokens : Tokens) (me other : User) (client : Client)
    → is_truthy client.access_token ≡ true
    → let signed = on_login_me (some me) (on_login_tokens (some tokens) (init_auth client)) in
      let failed = on_mount_me none signed in
      let answered = on_mount_me (some other) signed in
      (failed.client.access_token ≡ none)
      × (failed.client.refresh_token ≡ none)
      × (failed.user ≡ some me)
      × (route_view failed ≡ children)
      × (answered.user ≡ some other)
      × (answered.client.access_token ≡ some tokens.access_token)
unfolding init_auth on_mount_me on_login_tokens on_login_me clear_auth_storage store_auth_tokens
late_answer tokens me other client t = (refl, refl, refl, refl, refl, refl)

-- Where the page has loaded and a login's tokens have been stored while a refresh was waiting for the
-- server: if the user logs out, or the refresh is refused, before the `getMe` of the login succeeds, its
-- user is shown as signed in all the same, with neither token stored.
pub overtaken_login :
    (tokens : Tokens) (me : User) (a : Auth)
    → a.is_loading ≡ false
    → a.client.refresh ≡ posted
    → let started = on_login_tokens (some tokens) a in
      let left = on_login_me (some me) (logout started) in
      let refused = on_login_me (some me) (on_http (refreshed none) started) in
      (left.user ≡ some me)
      × (route_view left ≡ children)
      × (left.client.access_token ≡ none)
      × (left.client.refresh_token ≡ none)
      × (refused.user ≡ some me)
      × (route_view refused ≡ children)
      × (refused.client.access_token ≡ none)
      × (refused.client.refresh_token ≡ none)
unfolding on_login_tokens on_login_me logout clear_auth_storage store_auth_tokens
overtaken_login tokens me a l p =
    rw (on_http-refused (record a { client = store_auth_tokens tokens a.client }) p)
      (rw l (refl, refl, refl, refl, refl, refl, refl, refl))
