-- ===== src/Auth/SignedIn.antt =====
-- frontend/src/contexts/AuthContext.tsx with frontend/src/api/client.ts: a shown user has a session.
use syncwatch.Shared.{
  String, ◌≡◌, refl, Bool, Bool-cases, inl, inr, true, false, Option, none, some, List, [], ◌∷◌,
  any, is_some, is_truthy, arith, if◌then◌else◌, ℕ, ◌+◌, ◌-◌, ◌&&◌, ◌||◌, ltb,
}
use syncwatch.ApiClient.{Client, Tokens, Output, store_auth_tokens}
use syncwatch.ApiClient.Events.{Event, step}
use syncwatch.ApiClient.Holding.{is_logout, HoldsToken, step-HoldsToken}
use syncwatch.Auth.{
  User, Auth, AuthModalMode, init_auth, on_mount_me, on_login_tokens, on_login_me, logout,
  open_auth_modal, close_auth_modal, heard, on_http, is_authenticated,
}

-- Who is shown as signed in has a stored token.
abbrev pub HasSession : Auth → Type 0
HasSession a = is_authenticated a ≡ true → is_some a.client.access_token ≡ true

-- What happens once the effect of the provider has settled. The two awaits of a login come back apart:
-- the answer of `apiLogin`, and later the answer of the `getMe` that it starts.
pub data AuthEvent : Type 0 where
  http : Event → AuthEvent
  tokens_come : Option Tokens → AuthEvent
  user_comes : Option User → AuthEvent
  signs_out : AuthEvent
  opens_modal : (message : Option String) (mode : Option AuthModalMode) → AuthEvent
  closes_modal : AuthEvent

-- How many logins wait for their user after the event.
abbrev pub logins_after : AuthEvent → ℕ → ℕ
logins_after (tokens_come (some tokens)) logins = logins + 1
logins_after (user_comes me) logins = logins - 1
logins_after _ logins = logins

-- A user comes only where a login waits for it.
abbrev pub auth_step : (logins : ℕ) → AuthEvent → Auth → Auth
auth_step logins (http e) a = on_http e a
auth_step logins (tokens_come tokens) a = on_login_tokens tokens a
auth_step logins (user_comes me) a = if ltb 0 logins then on_login_me me a else a
auth_step logins signs_out a = logout a
auth_step logins (opens_modal message mode) a = open_auth_modal message mode a
auth_step logins closes_modal a = close_auth_modal a

unfoldable pub auth_run : (logins : ℕ) → List AuthEvent → Auth → Auth
auth_run logins [] a = a
auth_run logins (e ∷ es) a = auth_run (logins_after e logins) es (auth_step logins e a)

-- The event takes the tokens away while a login waits for its user: a logout, or one that the HTTP
-- client signals.
abbrev pub overtakes : (logins : ℕ) → AuthEvent → Auth → Bool
overtakes logins signs_out a = ltb 0 logins
overtakes logins (http e) a = ltb 0 logins && any is_logout (step e a.client).1
overtakes logins _ a = false

-- One of the events does.
unfoldable pub overtaken : (logins : ℕ) → List AuthEvent → Auth → Bool
overtaken logins [] a = false
overtaken logins (e ∷ es) a =
    overtakes logins e a || overtaken (logins_after e logins) es (auth_step logins e a)

-- A login that waits for its user has stored a token too.
abbrev HasTokens : (logins : ℕ) → Auth → Type 0
HasTokens logins a = HasSession a × (ltb 0 logins ≡ true → is_some a.client.access_token ≡ true)

heard-HasSession :
    (a : Auth) (r : Client × List Output)
    → HasSession a
    → HoldsToken a.client r
    → HasSession (heard r.1 (record a { client = r.0 }))
unfolding HoldsToken
heard-HasSession a r h k = elim (Bool-cases (any is_logout r.1)) [
  | inl loud ↦ rw loud (λ s. absurd (ground arith))
  | inr quiet ↦ rw quiet (λ s. k quiet (h s))
]

heard-token :
    (a : Auth) (r : Client × List Output)
    → any is_logout r.1 ≡ false
    → is_some a.client.access_token ≡ true
    → HoldsToken a.client r
    → is_some (heard r.1 (record a { client = r.0 })).client.access_token ≡ true
unfolding HoldsToken
heard-token a r quiet h k = rw quiet (k quiet h)

user_set-token :
    (logins : ℕ) (me : Option User) (a : Auth)
    → is_some a.client.access_token ≡ true
    → HasTokens (logins - 1) (on_login_me me a)
unfolding on_login_me
user_set-token logins none a h = (λ s. h, λ w. h)
user_set-token logins (some me) a h = (λ s. h, λ w. h)

on_http-HasTokens :
    (logins : ℕ) (e : Event) (a : Auth)
    → HasTokens logins a
    → ltb 0 logins && any is_logout (step e a.client).1 ≡ false
    → HasTokens logins (on_http e a)
unfolding on_http
on_http-HasTokens logins e a h quiet = (
  heard-HasSession a (step e a.client) h.0 (step-HoldsToken e a.client),
  λ w. heard-token a (step e a.client) (quiet_of w) (h.1 w) (step-HoldsToken e a.client),
)
  where
    quiet_of : ltb 0 logins ≡ true → any is_logout (step e a.client).1 ≡ false
    quiet_of w = ground arith

user_comes-HasTokens :
    (logins : ℕ) (me : Option User) (a : Auth)
    → HasTokens logins a
    → HasTokens (logins - 1) (if ltb 0 logins then on_login_me me a else a)
user_comes-HasTokens logins me a h = elim (Bool-cases (ltb 0 logins)) [
  | inl some_wait ↦ rw some_wait (user_set-token logins me a (h.1 some_wait))
  | inr none_wait ↦ rw none_wait (h.0, λ w. absurd (ground arith))
]

auth_step-HasTokens :
    (logins : ℕ) (e : AuthEvent) (a : Auth)
    → HasTokens logins a
    → overtakes logins e a ≡ false
    → HasTokens (logins_after e logins) (auth_step logins e a)
unfolding on_login_tokens logout open_auth_modal close_auth_modal store_auth_tokens
auth_step-HasTokens logins (http e) a h q = on_http-HasTokens logins e a h q
auth_step-HasTokens logins (tokens_come none) a h q = h
auth_step-HasTokens logins (tokens_come (some tokens)) a h q = (λ s. refl, λ w. refl)
auth_step-HasTokens logins (user_comes me) a h q = user_comes-HasTokens logins me a h
auth_step-HasTokens logins signs_out a h q =
    (λ s. absurd (ground arith), λ w. absurd (ground arith))
auth_step-HasTokens logins (opens_modal message mode) a h q = h
auth_step-HasTokens logins closes_modal a h q = h

auth_run-HasSession :
    (logins : ℕ) (es : List AuthEvent) (a : Auth)
    → HasTokens logins a
    → overtaken logins es a ≡ false
    → HasSession (auth_run logins es a)
unfolding auth_run overtaken
auth_run-HasSession logins [] a h q = h.0
auth_run-HasSession logins (e ∷ es) a h q =
    auth_run-HasSession (logins_after e logins) es (auth_step logins e a)
      (auth_step-HasTokens logins e a h (first_of q)) (rest_of q)
  where
    first_of :
        overtakes logins e a || overtaken (logins_after e logins) es (auth_step logins e a) ≡ false
        → overtakes logins e a ≡ false
    first_of h' = ground arith

    rest_of :
        overtakes logins e a || overtaken (logins_after e logins) es (auth_step logins e a) ≡ false
        → overtaken (logins_after e logins) es (auth_step logins e a) ≡ false
    rest_of h' = ground arith

-- The provider when its first effect has settled: it asks who the user is where a token is stored.
unfoldable pub settled : Option User → Client → Auth
settled answer client =
    if is_truthy client.access_token
    then on_mount_me answer (init_auth client)
    else init_auth client

is_some-is_truthy : (o : Option String) → is_truthy o ≡ true → is_some o ≡ true
is_some-is_truthy none h = absurd (ground arith)
is_some-is_truthy (some t) h = refl

mounted-HasSession :
    (answer : Option User) (client : Client)
    → is_some client.access_token ≡ true
    → HasSession (on_mount_me answer (init_auth client))
unfolding on_mount_me init_auth
mounted-HasSession none client h = λ s. absurd (ground arith)
mounted-HasSession (some me) client h = λ s. h

either-HasSession :
    (test : Bool) (x y : Auth)
    → (test ≡ true → HasSession x)
    → HasSession y
    → HasSession (if test then x else y)
either-HasSession true x y h k = h refl
either-HasSession false x y h k = k

settled-HasSession : (answer : Option User) (client : Client) → HasSession (settled answer client)
unfolding settled init_auth
settled-HasSession answer client =
    either-HasSession (is_truthy client.access_token) _ _
      (λ t. mounted-HasSession answer client (is_some-is_truthy client.access_token t))
      (λ s. absurd (ground arith))

-- Once the provider's first question has been answered, and whatever requests fail, refreshes end,
-- logins succeed or fail in either of their awaits and logouts come after that: unless the tokens are
-- taken away while a login waits for its user, a user is shown only while an access token is stored.
pub signed_in-HasSession :
    (answer : Option User) (es : List AuthEvent) (client : Client)
    → overtaken 0 es (settled answer client) ≡ false
    → HasSession (auth_run 0 es (settled answer client))
signed_in-HasSession answer es client q =
    auth_run-HasSession 0 es (settled answer client)
      (settled-HasSession answer client, λ w. absurd (ground arith)) q
