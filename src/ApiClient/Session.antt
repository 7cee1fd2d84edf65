-- ===== src/ApiClient/Session.antt =====
-- frontend/src/api/client.ts: what becomes of requests that meet an expired session.
use syncwatch.Shared.{
  ℕ, ◌+◌, Bool, String, ◌≡◌, refl, sym, ap, subst, ◌∙◌, ◌≢◌, inl, inr, true, false, not, ◌||◌,
  Option, none, some, List, [], ◌∷◌, ◌++◌, map, arith, ◌==◌, All, All-append, is_truthy, Bool-cases,
}
use syncwatch.ApiClient.{
  Request, Tokens, Refresh, idle, posted, skipped, Client, Output, reject, retry, post_refresh,
  auth_logout, signal_auth_logout, store_auth_tokens, start_refresh, is_idle, is_auth_url,
  wait_for_refresh, on_response_error, continue_all, on_refresh_response, on_refresh_skipped,
  authorize,
}
use syncwatch.ApiClient.Events.{
  Event, fails, refreshed, continues, logs_in, if_posted, if_skipped, step, run, replies, failures,
  IsSound, IsMarked, one_if, asked,
}

module _ (about : String → Bool) where
  replies-append :
      (xs ys : List Output) → replies about (xs ++ ys) ≡ replies about xs + replies about ys
  replies-append [] ys = omega arith
  replies-append (reject r ∷ xs) ys = omega (arith, replies-append xs ys)
  replies-append (retry r ∷ xs) ys = omega (arith, replies-append xs ys)
  replies-append (post_refresh t ∷ xs) ys = replies-append xs ys
  replies-append (auth_logout ∷ xs) ys = replies-append xs ys

  replies-reject : (rs : List Request) → replies about (map reject rs) ≡ asked about rs
  replies-reject [] = refl
  replies-reject (r ∷ rs) = omega (arith, replies-reject rs)

  replies-retry :
      (t : Option String) (rs : List Request)
      → replies about (map (λ r. retry (authorize t r)) rs) ≡ asked about rs
  replies-retry t [] = refl
  replies-retry t (r ∷ rs) = omega (arith, replies-retry t rs)

  asked-append : (xs ys : List Request) → asked about (xs ++ ys) ≡ asked about xs + asked about ys
  asked-append [] ys = omega arith
  asked-append (r ∷ xs) ys = omega (arith, asked-append xs ys)

  -- What one step keeps.
  record Kept (entered : ℕ) (c c' : Client) (out : List Output) : Type 0 where
    sound : IsSound c'
    marked_out : All IsMarked out
    balance : replies about out + asked about c'.waiting ≡ entered + asked about c.waiting

  IsMarked-reject : (rs : List Request) → All IsMarked (map reject rs)
  IsMarked-reject [] = tt
  IsMarked-reject (r ∷ rs) = (tt, IsMarked-reject rs)

  IsMarked-retry :
      (t : Option String) (rs : List Request)
      → is_truthy t ≡ true
      → All (λ r. r.is_retry ≡ true) rs
      → All IsMarked (map (λ r. retry (authorize t r)) rs)
  IsMarked-retry t [] k h = tt
  IsMarked-retry t (r ∷ rs) k h = ((h.0, k), IsMarked-retry t rs k h.1)

  continue_all-Kept :
      (token : Option String) (c c' : Client)
      → c'.waiting ≡ c.waiting
      → IsSound c
      → Kept 0 c (continue_all token c').0 (continue_all token c').1
  unfolding continue_all
  continue_all-Kept token c c' e h =
      let marked : All (λ r. r.is_retry ≡ true) c'.waiting =
        subst (All (λ r. r.is_retry ≡ true)) (sym e) h.marked in
      elim (Bool-cases (is_truthy token)) [
        | inl fresh ↦ rw fresh (record {
          sound = record { no_orphans = λ i. refl; marked = tt };
          marked_out = IsMarked-retry token c'.waiting fresh marked;
          balance = omega (arith, replies-retry token c'.waiting, ap (asked about) e);
        })
        | inr dead ↦ rw dead (record {
          sound = record { no_orphans = λ i. refl; marked = tt };
          marked_out = IsMarked-reject c'.waiting;
          balance = omega (arith, replies-reject c'.waiting, ap (asked about) e);
        })
      ]

  -- A call that answers nobody and leaves the queue and the promise alone.
  same-Kept :
      (c c' : Client) → c'.waiting ≡ c.waiting → c'.refresh ≡ c.refresh → IsSound c → Kept 0 c c' []
  same-Kept c c' e f h = record {
    sound = record {
      no_orphans = λ i. e ∙ h.no_orphans (sym f ∙ i);
      marked = subst (All (λ r. r.is_retry ≡ true)) (sym e) h.marked;
    };
    marked_out = tt;
    balance = omega (arith, ap (asked about) e);
  }

  -- A request joins the queue while a refresh is under way, and nobody is answered.
  queued-Kept :
      (r : Request) (c c' : Client) (out : List Output)
      → c'.waiting ≡ c.waiting ++ record r { is_retry = true } ∷ []
      → c'.refresh ≢ idle
      → replies about out ≡ 0
      → All IsMarked out
      → IsSound c
      → Kept (one_if (about r.url)) c c' out
  queued-Kept r c c' out e busy silent marked h = record {
    sound = record {
      no_orphans = λ i. absurd (busy i);
      marked = subst (All (λ r. r.is_retry ≡ true)) (sym e) (
          All-append (λ r. r.is_retry ≡ true) c.waiting (record r { is_retry = true } ∷ []) h.marked
            (refl, tt));
    };
    marked_out = marked;
    balance = omega (
      arith,
      silent,
      ap (asked about) e,
      asked-append c.waiting (record r { is_retry = true } ∷ []),
    );
  }

  start_refresh-Kept :
      (o : Option String) (r : Request) (c : Client)
      → IsSound c
      → let c' = record c { waiting = c.waiting ++ record r { is_retry = true } ∷ [] } in
        Kept (one_if (about r.url)) c (start_refresh o c').0 (start_refresh o c').1
  unfolding start_refresh
  start_refresh-Kept none r c h = queued-Kept r c _ _ refl (λ i. cc) refl (tt, tt) h
  start_refresh-Kept (some t) r c h = elim (Bool-cases (is_truthy (some t))) [
    | inl there ↦ rw there (queued-Kept r c _ _ refl (λ i. cc) refl (tt, tt) h)
    | inr empty ↦ rw empty (queued-Kept r c _ _ refl (λ i. cc) refl (tt, tt) h)
  ]

  not_idle : (f : Refresh) → is_idle f ≡ false → f ≢ idle
  not_idle f h i = ground arith

  wait_for_refresh-Kept :
      (r : Request) (c : Client)
      → IsSound c
      → Kept (one_if (about r.url)) c (wait_for_refresh r c).0 (wait_for_refresh r c).1
  unfolding wait_for_refresh
  wait_for_refresh-Kept r c h = elim (Bool-cases (is_idle c.refresh)) [
    | inl none_yet ↦ rw none_yet (start_refresh-Kept c.refresh_token r c h)
    | inr under_way ↦
        rw under_way (queued-Kept r c _ _ refl (not_idle c.refresh under_way) refl tt h)
  ]

  reject-Kept :
      (r : Request) (c : Client) → IsSound c → Kept (one_if (about r.url)) c c (reject r ∷ [])
  reject-Kept r c h = record { sound = h; marked_out = (tt, tt); balance = omega arith }

  on_response_error-Kept :
      (status : Option ℕ) (r : Request) (c : Client)
      → IsSound c
      → Kept
          (one_if (about r.url))
          c
          (on_response_error status r c).0
          (on_response_error status r c).1
  unfolding on_response_error
  on_response_error-Kept none r c h = reject-Kept r c h
  on_response_error-Kept (some status) r c h =
      elim (Bool-cases (not (status == 401) || r.is_retry || is_auth_url r.url || c.session_dead)) [
        | inl final ↦ rw final (reject-Kept r c h)
        | inr expired ↦ rw expired (wait_for_refresh-Kept r c h)
      ]

  on_refresh_response-Kept :
      (tokens : Option Tokens) (c : Client)
      → IsSound c
      → Kept 0 c (on_refresh_response tokens c).0 (on_refresh_response tokens c).1
  unfolding on_refresh_response
  on_refresh_response-Kept (some t) c h =
      continue_all-Kept (some t.access_token) c (store_auth_tokens t c) refl h
  on_refresh_response-Kept none c h =
      let k = continue_all-Kept none c (signal_auth_logout c).0 refl h in
      record { sound = k.sound; marked_out = (tt, k.marked_out); balance = k.balance }

  abbrev entering : Event → ℕ
  entering (fails status r) = one_if (about r.url)
  entering _ = 0

  if_posted-Kept :
      (f : Refresh) (p : Client × List Output) (c : Client)
      → IsSound c
      → Kept 0 c p.0 p.1
      → Kept 0 c (if_posted f p c).0 (if_posted f p c).1
  if_posted-Kept posted p c h k = k
  if_posted-Kept _ p c h k = same-Kept c c refl refl h

  if_skipped-Kept :
      (f : Refresh) (p : Client × List Output) (c : Client)
      → IsSound c
      → Kept 0 c p.0 p.1
      → Kept 0 c (if_skipped f p c).0 (if_skipped f p c).1
  if_skipped-Kept skipped p c h k = k
  if_skipped-Kept _ p c h k = same-Kept c c refl refl h

  step-Kept : (e : Event) (c : Client) → IsSound c → Kept (entering e) c (step e c).0 (step e c).1
  unfolding store_auth_tokens on_refresh_skipped
  step-Kept (fails status r) c h = on_response_error-Kept status r c h
  step-Kept (refreshed tokens) c h =
      if_posted-Kept c.refresh _ c h (on_refresh_response-Kept tokens c h)
  step-Kept continues c h = if_skipped-Kept c.refresh _ c h (continue_all-Kept none c c refl h)
  step-Kept (logs_in tokens) c h = same-Kept c _ refl refl h

  failures-cons :
      (e : Event) (es : List Event) → failures about (e ∷ es) ≡ entering e + failures about es
  failures-cons (fails status r) es = omega arith
  failures-cons (refreshed tokens) es = omega arith
  failures-cons continues es = omega arith
  failures-cons (logs_in tokens) es = omega arith

  -- Over any sequence of failed requests, refreshes and logins, and whichever URLs are asked about: each request
  -- for one of them that failed is answered exactly once, by a rejection or a retry of that URL, or still
  -- waits; requests wait only while a refresh is under way; and every request that is retried carries a token
  -- and is marked, so that its next 401 is final.
  pub run-balance_requests :
      (es : List Event) (c : Client)
      → IsSound c
      → (replies about (run es c).1 + asked about (run es c).0.waiting
          ≡ failures about es + asked about c.waiting)
        × IsSound (run es c).0
        × All IsMarked (run es c).1
  unfolding run
  run-balance_requests [] c h = (omega arith, h, tt)
  run-balance_requests (e ∷ es) c h =
      let k = step-Kept e c h in
      let (balance, sound, marked) = run-balance_requests es (step e c).0 k.sound in
      (
        omega (
          arith,
          k.balance,
          balance,
          failures-cons e es,
          replies-append (step e c).1 (run es (step e c).0).1,
        ),
        sound,
        All-append IsMarked (step e c).1 _ k.marked_out marked,
      )
