-- ===== src/ApiClient/Flight.antt =====
-- frontend/src/api/client.ts: one refresh at a time.
use syncwatch.Shared.{
  ℕ, suc, ◌+◌, ◌≤◌, String, ◌≡◌, refl, inl, inr, true, not, ◌||◌, Option, none, some, List, [], ◌∷◌,
  ◌++◌, map, arith, ◌==◌, is_truthy, Bool-cases,
}
use syncwatch.ApiClient.{
  Request, Tokens, Refresh, idle, posted, skipped, Client, Output, reject, retry, post_refresh,
  auth_logout, signal_auth_logout, store_auth_tokens, start_refresh, is_idle, is_auth_url,
  wait_for_refresh, on_response_error, continue_all, on_refresh_response, on_refresh_skipped,
  authorize,
}
use syncwatch.ApiClient.Events.{
  Event, fails, refreshed, continues, logs_in, if_posted, if_skipped, step, run,
}

-- A refresh that the server has not answered yet.
abbrev pub in_flight : Refresh → ℕ
in_flight posted = 1
in_flight _ = 0

abbrev pub posts : List Output → ℕ
posts [] = 0
posts (post_refresh token ∷ out) = suc (posts out)
posts (_ ∷ out) = posts out

abbrev pub answers : List Event → ℕ
answers [] = 0
answers (refreshed tokens ∷ es) = suc (answers es)
answers (_ ∷ es) = answers es

posts-append : (xs ys : List Output) → posts (xs ++ ys) ≡ posts xs + posts ys
posts-append [] ys = omega arith
posts-append (post_refresh t ∷ xs) ys = omega (arith, posts-append xs ys)
posts-append (reject r ∷ xs) ys = posts-append xs ys
posts-append (retry r ∷ xs) ys = posts-append xs ys
posts-append (auth_logout ∷ xs) ys = posts-append xs ys

posts-reject : (rs : List Request) → posts (map reject rs) ≡ 0
posts-reject [] = refl
posts-reject (r ∷ rs) = posts-reject rs

posts-retry :
    (t : Option String) (rs : List Request) → posts (map (λ r. retry (authorize t r)) rs) ≡ 0
posts-retry t [] = refl
posts-retry t (r ∷ rs) = posts-retry t rs

posts-continue_all : (token : Option String) (c : Client) → posts (continue_all token c).1 ≡ 0
unfolding continue_all
posts-continue_all token c = elim (Bool-cases (is_truthy token)) [
  | inl fresh ↦ rw fresh (posts-retry token c.waiting)
  | inr dead ↦ rw dead (posts-reject c.waiting)
]

posts-on_refresh_response :
    (tokens : Option Tokens) (c : Client) → posts (on_refresh_response tokens c).1 ≡ 0
unfolding on_refresh_response
posts-on_refresh_response (some t) c =
    posts-continue_all (some t.access_token) (store_auth_tokens t c)
posts-on_refresh_response none c = posts-continue_all none (signal_auth_logout c).0

start_refresh-flight :
    (o : Option String) (c : Client)
    → posts (start_refresh o c).1 ≤ in_flight (start_refresh o c).0.refresh
unfolding start_refresh
start_refresh-flight none c = omega arith
start_refresh-flight (some t) c = ground arith

idle-flight : (f : Refresh) → is_idle f ≡ true → in_flight f ≡ 0
idle-flight f h = ground arith

wait_for_refresh-flight :
    (r : Request) (c : Client)
    → posts (wait_for_refresh r c).1 + in_flight c.refresh
      ≤ in_flight (wait_for_refresh r c).0.refresh
unfolding wait_for_refresh
wait_for_refresh-flight r c = elim (Bool-cases (is_idle c.refresh)) [
  | inl none_yet ↦
      rw none_yet
        (omega (arith, idle-flight c.refresh none_yet, start_refresh-flight c.refresh_token _))
  | inr under_way ↦ rw under_way (omega arith)
]

-- A failed request posts a refresh only where none is in flight, and leaves one in flight.
fails-flight :
    (status : Option ℕ) (r : Request) (c : Client)
    → posts (on_response_error status r c).1 + in_flight c.refresh
      ≤ in_flight (on_response_error status r c).0.refresh
unfolding on_response_error
fails-flight none r c = omega arith
fails-flight (some status) r c =
    elim (Bool-cases (not (status == 401) || r.is_retry || is_auth_url r.url || c.session_dead)) [
      | inl final ↦ rw final (omega arith)
      | inr expired ↦ rw expired (wait_for_refresh-flight r c)
    ]

if_posted-flight :
    (f : Refresh) (p : Client × List Output) (c : Client)
    → posts p.1 ≡ 0
    → f ≡ c.refresh
    → posts (if_posted f p c).1 + in_flight f ≤ in_flight (if_posted f p c).0.refresh + 1
if_posted-flight posted p c h e = omega (arith, h)
if_posted-flight idle p c h e = omega arith
if_posted-flight skipped p c h e = omega arith

if_skipped-flight :
    (f : Refresh) (p : Client × List Output) (c : Client)
    → posts p.1 ≡ 0
    → f ≡ c.refresh
    → posts (if_skipped f p c).1 + in_flight f ≤ in_flight (if_skipped f p c).0.refresh
if_skipped-flight posted p c h e = ground (arith, h)
if_skipped-flight idle p c h e = ground (arith, h)
if_skipped-flight skipped p c h e = omega (arith, h)

step-flight :
    (e : Event) (c : Client)
    → posts (step e c).1 + in_flight c.refresh ≤ in_flight (step e c).0.refresh + answers (e ∷ [])
unfolding store_auth_tokens on_refresh_skipped
step-flight (fails status r) c = omega (arith, fails-flight status r c)
step-flight (refreshed tokens) c = omega (
  arith,
  if_posted-flight c.refresh (on_refresh_response tokens c) c (posts-on_refresh_response tokens c)
      refl,
)
step-flight continues c =
    omega
      (arith, if_skipped-flight c.refresh (continue_all none c) c (posts-continue_all none c) refl)
step-flight (logs_in tokens) c = omega arith

answers-cons : (e : Event) (es : List Event) → answers (e ∷ es) ≡ answers (e ∷ []) + answers es
answers-cons (fails status r) es = omega arith
answers-cons (refreshed tokens) es = omega arith
answers-cons continues es = omega arith
answers-cons (logs_in tokens) es = omega arith

-- However many requests fail together, one refresh is posted for them: over any sequence of events the
-- refreshes that are posted are at most those that the server answered and the one that is in flight.
pub single_flight :
    (es : List Event) (c : Client)
    → posts (run es c).1 + in_flight c.refresh ≤ in_flight (run es c).0.refresh + answers es
unfolding run
single_flight [] c = omega arith
single_flight (e ∷ es) c = omega (
  arith,
  step-flight e c,
  single_flight es (step e c).0,
  answers-cons e es,
  posts-append (step e c).1 (run es (step e c).0).1,
)
