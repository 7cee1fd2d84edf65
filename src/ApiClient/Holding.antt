-- ===== src/ApiClient/Holding.antt =====
-- frontend/src/api/client.ts: a stored token goes only with a signalled logout.
use syncwatch.Shared.{
  ℕ, String, ◌≡◌, refl, ap, ◌∙◌, Bool, true, false, not, ◌||◌, Option, none, some, List, [], ◌∷◌,
  any, is_some, is_truthy, arith, ◌==◌, if◌then◌else◌,
}
use syncwatch.ApiClient.{
  Client, Tokens, Request, Refresh, posted, skipped, Output, reject, post_refresh, auth_logout,
  store_auth_tokens, signal_auth_logout, start_refresh, wait_for_refresh, on_response_error,
  continue_all, on_refresh_response, on_refresh_skipped, is_idle, is_auth_url,
}
use syncwatch.ApiClient.Events.{
  Event, fails, refreshed, continues, logs_in, step, if_posted, if_skipped,
}

abbrev pub is_logout : Output → Bool
is_logout auth_logout = true
is_logout _ = false

-- No logout was signalled, or a token that was there is there.
unfoldable pub HoldsToken : Client → Client × List Output → Type 0
HoldsToken c r =
    any is_logout r.1 ≡ false → is_some c.access_token ≡ true → is_some r.0.access_token ≡ true

same-HoldsToken :
    (c c' : Client) (out : List Output) → c'.access_token ≡ c.access_token → HoldsToken c (c', out)
unfolding HoldsToken
same-HoldsToken c c' out e q h = ap is_some e ∙ h

loud-HoldsToken : (c c' : Client) (out : List Output) → HoldsToken c (c', auth_logout ∷ out)
unfolding HoldsToken
loud-HoldsToken c c' out q h = absurd (ground arith)

if-HoldsToken :
    (c : Client) (test : Bool) (x y : Client × List Output)
    → HoldsToken c x
    → HoldsToken c y
    → HoldsToken c (if test then x else y)
if-HoldsToken c true x y h k = h
if-HoldsToken c false x y h k = k

start_refresh-HoldsToken :
    (t : Option String) (c c' : Client)
    → c'.access_token ≡ c.access_token
    → HoldsToken c (start_refresh t c')
unfolding start_refresh signal_auth_logout
start_refresh-HoldsToken none c c' e = loud-HoldsToken c _ []
start_refresh-HoldsToken (some t) c c' e =
    if-HoldsToken c (is_truthy (some t)) _ _
      (same-HoldsToken c (record c' { refresh = posted }) (post_refresh t ∷ []) e)
      (loud-HoldsToken c _ [])

on_response_error-HoldsToken :
    (s : Option ℕ) (r : Request) (c : Client) → HoldsToken c (on_response_error s r c)
unfolding on_response_error wait_for_refresh
on_response_error-HoldsToken none r c = same-HoldsToken c c _ refl
on_response_error-HoldsToken (some s) r c =
    if-HoldsToken c (not (s == 401) || r.is_retry || is_auth_url r.url || c.session_dead) _ _
      (same-HoldsToken c c (reject r ∷ []) refl)
      (if-HoldsToken c (is_idle c.refresh) _ _ (start_refresh-HoldsToken c.refresh_token c _ refl)
        (same-HoldsToken c _ [] refl))

logs_in-HoldsToken : (t : Tokens) (c : Client) → HoldsToken c (store_auth_tokens t c, [])
unfolding HoldsToken store_auth_tokens
logs_in-HoldsToken t c q h = refl

stored-HoldsToken :
    (t : Tokens) (c : Client)
    → HoldsToken c (continue_all (some t.access_token) (store_auth_tokens t c))
unfolding HoldsToken continue_all store_auth_tokens
stored-HoldsToken t c q h = ground arith

on_refresh_response-HoldsToken :
    (t : Option Tokens) (c : Client) → HoldsToken c (on_refresh_response t c)
unfolding on_refresh_response
on_refresh_response-HoldsToken none c = loud-HoldsToken c _ _
on_refresh_response-HoldsToken (some t) c = stored-HoldsToken t c

if_posted-HoldsToken :
    (f : Refresh) (r : Client × List Output) (c : Client)
    → HoldsToken c r
    → HoldsToken c (if_posted f r c)
if_posted-HoldsToken posted r c h = h
if_posted-HoldsToken _ r c h = same-HoldsToken c c [] refl

if_skipped-HoldsToken :
    (f : Refresh) (r : Client × List Output) (c : Client)
    → HoldsToken c r
    → HoldsToken c (if_skipped f r c)
if_skipped-HoldsToken skipped r c h = h
if_skipped-HoldsToken _ r c h = same-HoldsToken c c [] refl

pub step-HoldsToken : (e : Event) (c : Client) → HoldsToken c (step e c)
unfolding on_refresh_skipped continue_all
step-HoldsToken (fails s r) c = on_response_error-HoldsToken s r c
step-HoldsToken (refreshed t) c =
    if_posted-HoldsToken c.refresh (on_refresh_response t c) c (on_refresh_response-HoldsToken t c)
step-HoldsToken continues c =
    if_skipped-HoldsToken c.refresh (on_refresh_skipped c) c (same-HoldsToken c _ _ refl)
step-HoldsToken (logs_in t) c = logs_in-HoldsToken t c
