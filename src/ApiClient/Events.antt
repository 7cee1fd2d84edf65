-- ===== src/ApiClient/Events.antt =====
-- frontend/src/api/client.ts: sequences of failed requests, refreshes and logins, and what is counted in them.
use syncwatch.Shared.{
  ℕ, ◌+◌, String, ◌≡◌, Bool, true, false, Option, List, [], ◌∷◌, ◌++◌, All, is_truthy,
}
use syncwatch.ApiClient.{
  Request, Tokens, Refresh, idle, posted, skipped, Client, Output, reject, retry, store_auth_tokens,
  on_response_error, on_refresh_response, on_refresh_skipped,
}

-- What happens to the client. A refresh is answered only while one is posted, and continuations run
-- only after a promise was settled at once; elsewhere these events do nothing.
pub data Event : Type 0 where
  fails : (status : Option ℕ) → Request → Event
  refreshed : Option Tokens → Event
  continues : Event
  logs_in : Tokens → Event

abbrev pub if_posted : Refresh → Client × List Output → Client → Client × List Output
if_posted posted r c = r
if_posted _ r c = (c, [])

abbrev pub if_skipped : Refresh → Client × List Output → Client → Client × List Output
if_skipped skipped r c = r
if_skipped _ r c = (c, [])

abbrev pub step : Event → Client → Client × List Output
step (fails status r) c = on_response_error status r c
step (refreshed tokens) c = if_posted c.refresh (on_refresh_response tokens c) c
step continues c = if_skipped c.refresh (on_refresh_skipped c) c
step (logs_in tokens) c = (store_auth_tokens tokens c, [])

unfoldable pub run : List Event → Client → Client × List Output
run [] c = (c, [])
run (e ∷ es) c = let (c', out) = step e c in let (c'', more) = run es c' in (c'', out ++ more)

abbrev pub one_if : Bool → ℕ
one_if true = 1
one_if false = 0

-- How many of the requests have a URL that is asked about.
abbrev pub asked : (String → Bool) → List Request → ℕ
asked about [] = 0
asked about (r ∷ rs) = one_if (about r.url) + asked about rs

-- The answers that the callers of such requests get: a rejection or a retry each.
abbrev pub replies : (String → Bool) → List Output → ℕ
replies about [] = 0
replies about (reject r ∷ out) = one_if (about r.url) + replies about out
replies about (retry r ∷ out) = one_if (about r.url) + replies about out
replies about (_ ∷ out) = replies about out

-- How often such requests failed.
abbrev pub failures : (String → Bool) → List Event → ℕ
failures about [] = 0
failures about (fails status r ∷ es) = one_if (about r.url) + failures about es
failures about (_ ∷ es) = failures about es

-- Requests wait only while a refresh is under way, and what waits is marked, so that a second 401 of it
-- is final.
pub record IsSound (c : Client) : Type 0 where
  pub no_orphans : c.refresh ≡ idle → c.waiting ≡ []
  pub marked : All (λ r. r.is_retry ≡ true) c.waiting

-- A retried request is marked too, and has a token.
abbrev pub IsMarked : Output → Type 0
IsMarked (retry r) = (r.is_retry ≡ true) × (is_truthy r.authorization ≡ true)
IsMarked _ = Unit
