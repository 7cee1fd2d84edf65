-- ===== src/Examples/AuthRuns.antt =====
-- Runs of the signed-in user (frontend/src/contexts/AuthContext.tsx).
use syncwatch.Shared.{◌≡◌, refl, String, true, false, none, some, []}
use syncwatch.ApiClient.{Client, Tokens, idle, posted}
use syncwatch.Auth.{
  User, Auth, register, init_auth, on_mount_me, on_login_tokens, on_login_me, route_view, children,
  on_http, logout,
}
use syncwatch.ApiClient.Events.{refreshed}
use syncwatch.Auth.Late.{late_answer, overtaken_login}

abbrev pub user : (name : String) → User
user name = record {
  id = name;
  username = name;
  email = "a@b.c";
  is_active = true;
  created_at = "2026-01-01";
}

abbrev pub tokens : Tokens
tokens = record { access_token = "a2"; refresh_token = "r2" }

abbrev pub client : Client
client = record {
  access_token = some "a1";
  refresh_token = some "r1";
  session_dead = false;
  refresh = idle;
  waiting = [];
}

late_answer_example :
    let signed =
      on_login_me (some (user "ann")) (on_login_tokens (some tokens) (init_auth client)) in
    let failed = on_mount_me none signed in
    let answered = on_mount_me (some (user "bob")) signed in
    (failed.client.access_token ≡ none)
    × (failed.client.refresh_token ≡ none)
    × (failed.user ≡ some (user "ann"))
    × (route_view failed ≡ children)
    × (answered.user ≡ some (user "bob"))
    × (answered.client.access_token ≡ some "a2")
late_answer_example = late_answer tokens (user "ann") (user "bob") client refl

-- Ann's page, whose refresh of the tokens waits for the server.
abbrev refreshing : Auth
refreshing = record {
  client = record client { refresh = posted };
  user = some (user "ann");
  is_loading = false;
  auth_modal_open = false;
  auth_modal_message = none;
  auth_modal_mode = register;
}

-- Ann's tokens are waiting for a refresh when Bob signs in.
overtaken_login_example :
    let started = on_login_tokens (some tokens) refreshing in
    let left = on_login_me (some (user "bob")) (logout started) in
    let refused = on_login_me (some (user "bob")) (on_http (refreshed none) started) in
    (left.user ≡ some (user "bob"))
    × (route_view left ≡ children)
    × (left.client.access_token ≡ none)
    × (left.client.refresh_token ≡ none)
    × (refused.user ≡ some (user "bob"))
    × (route_view refused ≡ children)
    × (refused.client.access_token ≡ none)
    × (refused.client.refresh_token ≡ none)
overtaken_login_example = overtaken_login tokens (user "bob") refreshing refl refl
