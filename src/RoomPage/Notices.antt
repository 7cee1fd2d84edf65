-- ===== src/RoomPage/Notices.antt =====
-- frontend/src/pages/RoomPage.tsx: leaving the room, the toasts on a recovered connection and a returned
-- host, and the hint over the video. `t` is the dictionary's texts.
use syncwatch.Shared.{
  ℕ, ◌+◌, ◌≤◌, String, ◌≡◌, refl, Bool, true, false, not, ◌&&◌, Option, none, some, is_truthy,
  or_else, List, [], ◌∷◌, ◌++◌, length, length-append, arith, if◌then◌else◌,
}
use syncwatch.Navigation.{primary, success, danger}
use syncwatch.Session.{ToastOptions}
use syncwatch.Ui.{ConfirmConfig}

pub record Texts : Type 0 where
  pub hint_load_file : String
  pub leave_host_q : String
  pub leave_host_sub : String
  pub leave_host : String
  pub stay_here : String
  pub toast_closed_title : String
  pub toast_closed_sub : String
  pub toast_left_title : String
  pub toast_left_sub : String
  pub toast_conn_restored_title : String
  pub toast_conn_restored_sub : String
  pub toast_host_back_title : String
  pub toast_host_back_sub : String

pub data ConnectionState : Type 0 where
  connected connecting reconnecting : ConnectionState

abbrev pub connection_state : (is_connected is_reconnecting : Bool) → ConnectionState
connection_state true r = connected
connection_state false true = reconnecting
connection_state false false = connecting

pub record Notices : Type 0 where
  pub previous_connection_state : ConnectionState
  pub previous_host_disconnected : Bool
  pub interaction_hint : Option String
  pub hint_timer : Bool

unfoldable pub init_notices : Notices
init_notices = record {
  previous_connection_state = connecting;
  previous_host_disconnected = false;
  interaction_hint = none;
  hint_timer = false;
}

abbrev pub recovered : ConnectionState → ConnectionState → Bool
recovered reconnecting connected = true
recovered _ _ = false

abbrev pub success_toast : String → String → ℕ → ToastOptions
success_toast title description ms = record {
  title = title;
  description = some description;
  tone = some success;
  duration_ms = some ms;
}

-- The effect on the state of the connection.
unfoldable pub on_connection_state : Texts → ConnectionState → Notices → Notices × List ToastOptions
on_connection_state t now n = (
  record n { previous_connection_state = now },
  if recovered n.previous_connection_state now
      then success_toast t.toast_conn_restored_title t.toast_conn_restored_sub 3200 ∷ []
      else [],
)

-- The effect on the presence of the host.
unfoldable pub on_host_presence :
    Texts → (host_disconnected : Bool) → Notices → Notices × List ToastOptions
on_host_presence t gone n = (
  record n { previous_host_disconnected = gone },
  if n.previous_host_disconnected && not gone
      then success_toast t.toast_host_back_title t.toast_host_back_sub 3400 ∷ []
      else [],
)

-- Shows a text, by default the one about loading a file, for 2200 ms from the last time.
unfoldable pub show_interaction_hint : Texts → Option String → Notices → Notices
show_interaction_hint t none n = record n {
  interaction_hint = some t.hint_load_file;
  hint_timer = true;
}
show_interaction_hint t (some message) n = record n {
  interaction_hint = some message;
  hint_timer = true;
}

unfoldable pub on_hint_timeout : Notices → Notices
on_hint_timeout n =
    if n.hint_timer then record n { interaction_hint = none; hint_timer = false } else n

-- The cleanup when the page goes away, with the object URLs that it revokes; `file_url` is `fileUrlRef`.
unfoldable pub on_page_unmount : (file_url : Option String) → Notices → Notices × List String
on_page_unmount file_url n =
    (record n { hint_timer = false }, if is_truthy file_url then or_else file_url "" ∷ [] else [])

pub data Call : Type 0 where
  ask : ConfirmConfig → Call
  leave_room : (room_id : String) → Call
  toast : ToastOptions → Call
  -- `navigate('/create')`
  go_to_dashboard : Call

-- `handleLeave` up to its first `await`.
unfoldable pub handle_leave : Texts → (is_host : Bool) (room_id : String) → List Call
handle_leave t is_host room_id =
    if not (is_truthy (some room_id))
    then []
    else if is_host
    then ask (record {
      eyebrow = none;
      title = t.leave_host_q;
      description = t.leave_host_sub;
      confirm_label = some t.leave_host;
      cancel_label = some t.stay_here;
      tone = some danger;
    })
      ∷ []
    else leave_room room_id ∷ []

unfoldable pub on_leave_answered : (room_id : String) (confirmed : Bool) → List Call
on_leave_answered room_id confirmed = if confirmed then leave_room room_id ∷ [] else []

-- After `await leaveRoom`, which may fail: the page leaves for the dashboard in either case.
unfoldable pub on_left : Texts → (is_host left : Bool) → List Call
on_left t is_host left =
    if not left
    then go_to_dashboard ∷ []
    else toast (record {
      title = if is_host then t.toast_closed_title else t.toast_left_title;
      description = some (if is_host then t.toast_closed_sub else t.toast_left_sub);
      tone = some (if is_host then primary else success);
      duration_ms = none;
    })
      ∷ go_to_dashboard
      ∷ []

-- What the connection goes through: the toasts of the effect, which runs on every change of it.
unfoldable pub toasts_of : Texts → List ConnectionState → Notices → List ToastOptions
unfolding on_connection_state
toasts_of t [] n = []
toasts_of t (now ∷ states) n =
    let (n', shown) = on_connection_state t now n in shown ++ toasts_of t states n'

abbrev pub is_reconnecting : ConnectionState → ℕ
is_reconnecting reconnecting = 1
is_reconnecting _ = 0

-- How often the connection begins to be restored, seen from this state.
abbrev pub losses : ConnectionState → List ConnectionState → ℕ
losses before [] = 0
losses reconnecting (now ∷ states) = losses now states
losses before (now ∷ states) = is_reconnecting now + losses now states

one_toast :
    (t : Texts) (now : ConnectionState) (states : List ConnectionState) (n : Notices)
    (before : ConnectionState)
    → n.previous_connection_state ≡ before
    → length (on_connection_state t now n).1 + is_reconnecting now + losses now states
      ≤ losses before (now ∷ states) + is_reconnecting before
unfolding on_connection_state
one_toast t connected states n connected e = rw e (omega arith)
one_toast t connected states n connecting e = rw e (omega arith)
one_toast t connected states n reconnecting e = rw e (omega arith)
one_toast t connecting states n connected e = rw e (omega arith)
one_toast t connecting states n connecting e = rw e (omega arith)
one_toast t connecting states n reconnecting e = rw e (omega arith)
one_toast t reconnecting states n connected e = rw e (omega arith)
one_toast t reconnecting states n connecting e = rw e (omega arith)
one_toast t reconnecting states n reconnecting e = rw e (omega arith)

-- The recovery of the connection is announced at most once for each time that it was lost: the first
-- connection and repeated states announce nothing.
pub recovery_toasts :
    (t : Texts) (states : List ConnectionState) (n : Notices)
    → length (toasts_of t states n)
      ≤ losses n.previous_connection_state states + is_reconnecting n.previous_connection_state
unfolding toasts_of
recovery_toasts t [] n = omega arith
recovery_toasts t (now ∷ states) n = omega (
  arith,
  one_toast t now states n n.previous_connection_state refl,
  recovery_toasts t states (record n { previous_connection_state = now }),
  length-append (on_connection_state t now n).1
      (toasts_of t states (on_connection_state t now n).0),
)
