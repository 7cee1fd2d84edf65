-- ===== src/ApiClient/Dead.antt =====
-- frontend/src/api/client.ts: after a refused refresh, until a login.
use syncwatch.Shared.{
  ◌≡◌, refl, ap, Bool, true, false, none, some, List, [], ◌∷◌, ◌++◌, map, arith, any,
}
use syncwatch.ApiClient.{
  idle, posted, Client, Output, reject, auth_logout, on_response_error, continue_all,
  on_refresh_response,
}
use syncwatch.ApiClient.Events.{Event, fails, refreshed, continues, logs_in, step, run}

-- The rejections of the requests that fail, in order.
abbrev pub rejections : List Event → List Output
rejections [] = []
rejections (fails status r ∷ es) = reject r ∷ rejections es
rejections (_ ∷ es) = rejections es

abbrev pub is_login : Event → Bool
is_login (logs_in tokens) = true
is_login _ = false

-- A session that is known to be dead, with nothing left to settle.
abbrev pub IsDead : Client → Type 0
IsDead c = (c.session_dead ≡ true) × (c.refresh ≡ idle)

step-dead :
    (e : Event) (c : Client) → is_login e ≡ false → IsDead c → step e c ≡ (c, rejections (e ∷ []))
unfolding on_response_error
step-dead (fails none r) c l d = refl
step-dead (fails (some status) r) c l d = ground arith
step-dead (refreshed tokens) c l d = rw d.1
step-dead continues c l d = rw d.1
step-dead (logs_in tokens) c l d = cc

rejections-cons :
    (e : Event) (es : List Event) → rejections (e ∷ es) ≡ rejections (e ∷ []) ++ rejections es
rejections-cons (fails status r) es = refl
rejections-cons (refreshed tokens) es = refl
rejections-cons continues es = refl
rejections-cons (logs_in tokens) es = refl

run-dead :
    (es : List Event) (c : Client)
    → any is_login es ≡ false
    → IsDead c
    → run es c ≡ (c, rejections es)
unfolding run
run-dead [] c l d = refl
run-dead (e ∷ es) c l d =
    rw (step-dead e c (ground arith) d)
      (rw (run-dead es c (ground arith) d) (rw (rejections-cons e es)))

abbrev pub refused : Client → Client
refused c = record c {
  access_token = none;
  refresh_token = none;
  session_dead = true;
  refresh = idle;
  waiting = [];
}

pub step-refused :
    (c : Client)
    → c.refresh ≡ posted
    → step (refreshed none) c ≡ (refused c, auth_logout ∷ map reject c.waiting)
unfolding on_refresh_response continue_all
step-refused c p = ground arith

run-refused :
    (es : List Event) (c : Client)
    → c.refresh ≡ posted
    → any is_login es ≡ false
    → run (refreshed none ∷ es) c
      ≡ (refused c, (auth_logout ∷ map reject c.waiting) ++ rejections es)
unfolding run
run-refused es c p l = rw (step-refused c p) (rw (run-dead es (refused c) l (refl, refl)))

-- When the server refuses a refresh, the stored tokens are removed, the logout is signalled once, every
-- waiting request is rejected in its order, and from then on, until a login, every failed request is
-- rejected at once and nothing else happens.
pub refresh_refused :
    (es : List Event) (c : Client)
    → c.refresh ≡ posted
    → any is_login es ≡ false
    → let (c', out) = run (refreshed none ∷ es) c in
      (c'.access_token ≡ none)
      × (c'.refresh_token ≡ none)
      × (c'.waiting ≡ [])
      × (out ≡ auth_logout ∷ map reject c.waiting ++ rejections es)
refresh_refused es c p l =
    let e = run-refused es c p l in
    (
      ap (λ r. r.0.access_token) e,
      ap (λ r. r.0.refresh_token) e,
      ap (λ r. r.0.waiting) e,
      ap (λ r. r.1) e,
    )
