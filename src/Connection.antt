-- ===== src/Connection.antt =====
-- frontend/src/hooks/useWebSocket.ts: the state of the hook and the calls that its callbacks make.
use syncwatch.Shared.{ℕ, String, Bool, Option, List}
use syncwatch.Protocol.{WsMessage}

-- The refs and the state of the hook; `reconnect_timeout` is the delay of the pending timer.
pub record Connection : Type 0 where
  pub is_connected : Bool
  pub is_reconnecting : Bool
  pub ws : Option ℕ
  pub reconnect_timeout : Option ℕ
  pub reconnect_attempt : ℕ
  pub should_reconnect : Bool
  pub intentional_close : Bool
  pub has_connected : Bool
  pub mount_id : ℕ
  pub last_seq : Option ℕ

-- A value in an outgoing message.
pub data Value : Type 0 where
  num : ℕ → Value
  text : String → Value
  flag : Bool → Value

-- An outgoing JSON object, its keys in order.
abbrev pub Fields : Type 0
Fields = List (String × Value)

pub data Call : Type 0 where
  -- `createWsTicket(roomId)`, by a call of `connect` that captured this mount
  request_ticket : (mount : ℕ) → Call
  -- `new WebSocket(buildWsUrl(roomId, ticket))`
  open_socket : (socket : ℕ) (ticket : String) → Call
  close_socket : (socket : ℕ) → Call
  send_frame : (socket : ℕ) → Fields → Call
  -- `window.setTimeout` for `connect` after mounting, and for a reconnect
  set_connect_timeout : Call
  clear_connect_timeout : Call
  set_reconnect_timeout : (ms : ℕ) → Call
  clear_reconnect_timeout : Call
  -- `onMessageRef.current(msg)`
  deliver : WsMessage → Call
  -- `onFatalRef.current?.(status)`
  fatal : (status : ℕ) → Call
  reset_room : Call
