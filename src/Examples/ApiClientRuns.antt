-- ===== src/Examples/ApiClientRuns.antt =====
-- Runs of the HTTP client (frontend/src/api/client.ts).
use syncwatch.Shared.{
  ◌≡◌, ◌≤◌, ◌+◌, refl, false, none, some, List, [], ◌∷◌, ◌++◌, map, All, String, Bool, str_eq,
}
use syncwatch.ApiClient.{Client, Request, Tokens, idle, posted, reject, auth_logout}
use syncwatch.ApiClient.Events.{
  Event, fails, refreshed, continues, run, replies, asked, IsSound, IsMarked,
}
use syncwatch.ApiClient.Session.{run-balance_requests}
use syncwatch.ApiClient.Flight.{in_flight, posts, single_flight}
use syncwatch.ApiClient.Dead.{rejections, refresh_refused}

abbrev signed_in : Client
signed_in = record {
  access_token = some "a1";
  refresh_token = some "r1";
  session_dead = false;
  refresh = idle;
  waiting = [];
}

abbrev rooms : Request
rooms = record { url = "/rooms"; is_retry = false; authorization = some "Bearer a1" }

abbrev me : Request
me = record { url = "/auth/me"; is_retry = false; authorization = some "Bearer a1" }

abbrev tokens : Tokens
tokens = record { access_token = "a2"; refresh_token = "r2" }

abbrev expired : List Event
expired =
    fails (some 401) rooms
    ∷ fails (some 401) me
    ∷ refreshed (some tokens)
    ∷ fails (some 500) me
    ∷ []

abbrev is_me : String → Bool
is_me url = str_eq url "/auth/me"

run-balance_requests_example :
    (replies is_me (run expired signed_in).1 + asked is_me (run expired signed_in).0.waiting ≡ 2)
    × IsSound (run expired signed_in).0
    × All IsMarked (run expired signed_in).1
run-balance_requests_example =
    run-balance_requests is_me expired signed_in (record { no_orphans = λ e. refl; marked = tt })

single_flight_example :
    posts (run expired signed_in).1 + 0 ≤ in_flight (run expired signed_in).0.refresh + 1
single_flight_example = single_flight expired signed_in

abbrev refreshing : Client
refreshing = record signed_in { refresh = posted; waiting = rooms ∷ [] }

abbrev afterwards : List Event
afterwards = fails (some 401) me ∷ continues ∷ []

refresh_refused_example :
    let (c', out) = run (refreshed none ∷ afterwards) refreshing in
    (c'.access_token ≡ none)
    × (c'.refresh_token ≡ none)
    × (c'.waiting ≡ [])
    × (out ≡ auth_logout ∷ map reject (rooms ∷ []) ++ rejections afterwards)
refresh_refused_example = refresh_refused afterwards refreshing refl refl
