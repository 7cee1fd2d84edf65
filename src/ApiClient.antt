-- ===== src/ApiClient.antt =====
-- frontend/src/api/client.ts: the HTTP client with its two interceptors. The state is the stored tokens and
-- the module's two variables; requests that wait for `refreshPromise` are a list, in the order in
-- which their continuations run. HTTP itself is outside: what is sent is an output, and an answer is
-- an argument of the next step.
pub mod Events
pub mod Session
pub mod Flight
pub mod Dead
pub mod Holding
use syncwatch.Shared.{
  ℕ, String, Bool, true, false, not, ◌&&◌, ◌||◌, Option, none, some, List, [], ◌∷◌, ◌++◌, map, ◌==◌,
  is_some, is_truthy, if◌then◌else◌,
}
use text.Mathlib.Text.{find?}

-- `error.config`
pub record Request : Type 0 where
  pub url : String
  pub is_retry : Bool
  pub authorization : Option String

pub record Tokens : Type 0 where
  pub access_token : String
  pub refresh_token : String

-- `refreshPromise`: none; one that waits for the server; or one that was settled at once, since no
-- refresh token is stored, and whose continuations have yet to run.
pub data Refresh : Type 0 where
  idle posted skipped : Refresh

pub record Client : Type 0 where
  pub access_token : Option String
  pub refresh_token : Option String
  pub session_dead : Bool
  pub refresh : Refresh
  pub waiting : List Request

pub data Output : Type 0 where
  -- `Promise.reject(error)` to the caller of the request
  reject : Request → Output
  -- `apiClient(originalRequest)`
  retry : Request → Output
  -- `axios.post('/auth/refresh')`
  post_refresh : (refresh_token : String) → Output
  -- the event `syncwatch:auth-logout`
  auth_logout : Output

unfoldable pub clear_auth_storage : Client → Client
clear_auth_storage c = record c { access_token = none; refresh_token = none }

unfoldable pub signal_auth_logout : Client → Client × List Output
unfolding clear_auth_storage
signal_auth_logout c = (clear_auth_storage c, auth_logout ∷ [])

unfoldable pub store_auth_tokens : Tokens → Client → Client
store_auth_tokens t c = record c {
  session_dead = false;
  access_token = some t.access_token;
  refresh_token = some t.refresh_token;
}

-- `Authorization: Bearer …`
abbrev pub authorize : Option String → Request → Request
authorize token r = record r { authorization = token }

-- The interceptor of requests.
unfoldable pub on_request : Client → Request → Request
on_request c r = if is_truthy c.access_token then authorize c.access_token r else r

-- `refreshAccessToken` up to its `await`, with the promise kept.
unfoldable pub start_refresh : Option String → Client → Client × List Output
unfolding signal_auth_logout
start_refresh none c = (record (signal_auth_logout c).0 { refresh = skipped }, auth_logout ∷ [])
start_refresh (some token) c =
    if is_truthy (some token)
    then (record c { refresh = posted }, post_refresh token ∷ [])
    else (record (signal_auth_logout c).0 { refresh = skipped }, auth_logout ∷ [])

-- `url?.includes(part)`
abbrev pub includes : String → String → Bool
includes url part = is_some (find? url part)

abbrev pub is_auth_url : String → Bool
is_auth_url url =
    includes url "/auth/login" || includes url "/auth/register" || includes url "/auth/refresh"

abbrev pub is_idle : Refresh → Bool
is_idle idle = true
is_idle _ = false

-- The 401 of a request that may be retried.
unfoldable pub wait_for_refresh : Request → Client → Client × List Output
unfolding start_refresh
wait_for_refresh r c =
    let queued = record c { waiting = c.waiting ++ record r { is_retry = true } ∷ [] } in
    if is_idle c.refresh then start_refresh c.refresh_token queued else (queued, [])

-- The interceptor of responses, for an error that names its request, with the status if there was a
-- response.
unfoldable pub on_response_error : Option ℕ → Request → Client → Client × List Output
unfolding wait_for_refresh
on_response_error none r c = (c, reject r ∷ [])
on_response_error (some status) r c =
    if not (status == 401) || r.is_retry || is_auth_url r.url || c.session_dead
    then (c, reject r ∷ [])
    else wait_for_refresh r c

-- The continuations after `await refreshPromise`, each for its request, once the promise is settled and
-- cleared.
unfoldable pub continue_all : Option String → Client → Client × List Output
continue_all token c =
    if is_truthy token
    then (record c { refresh = idle; waiting = [] }, map (λ r. retry (authorize token r)) c.waiting)
    else (record c { refresh = idle; waiting = []; session_dead = true }, map reject c.waiting)

-- The answer to the refresh: a pair of tokens, or a failure.
unfoldable pub on_refresh_response : Option Tokens → Client → Client × List Output
unfolding continue_all store_auth_tokens signal_auth_logout
on_refresh_response (some t) c = continue_all (some t.access_token) (store_auth_tokens t c)
on_refresh_response none c =
    let (c', out) = continue_all none (signal_auth_logout c).0 in (c', auth_logout ∷ out)

-- The promise that was settled at once runs its continuations.
unfoldable pub on_refresh_skipped : Client → Client × List Output
unfolding continue_all
on_refresh_skipped c = continue_all none c
