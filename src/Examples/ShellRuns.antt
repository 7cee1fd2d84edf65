-- ===== src/Examples/ShellRuns.antt =====
-- Runs of the pages (frontend/src/App.tsx).
use syncwatch.Shared.{false, some, none, List, [], ◌∷◌}
use syncwatch.ApiClient.{Request}
use syncwatch.ApiClient.Events.{fails, refreshed}
use syncwatch.Auth.SignedIn.{AuthEvent, http, tokens_come, user_comes, signs_out}
use syncwatch.Examples.AuthRuns.{user, tokens}

abbrev rooms : Request
rooms = record { url = "/rooms"; is_retry = false; authorization = some "a1" }

-- A logout, a login whose user is asked for in vain, a refresh that is refused, and another login, during
-- which a request fails for good.
abbrev evening : List AuthEvent
evening =
    signs_out
    ∷ tokens_come (some tokens)
    ∷ user_comes none
    ∷ http (fails (some 401) rooms)
    ∷ http (refreshed none)
    ∷ tokens_come (some tokens)
    ∷ http (fails (some 404) rooms)
    ∷ user_comes (some (user "ann"))
    ∷ []
