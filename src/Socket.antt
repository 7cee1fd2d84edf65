-- ===== src/Socket.antt =====
-- frontend/src/hooks/useWebSocket.ts: the connection to the room. Each callback of the hook is a
-- function from the hook's refs and state to new ones and the calls that it makes, in their order.
-- A closure's captured variables are arguments: the socket and the mount that it belongs to. A socket
-- is named by a number, and a callback of any socket or ticket may come at any time.
pub mod Url
pub mod Seq
pub mod Backoff
pub mod Shutdown
pub mod Frames
pub mod Stale
use syncwatch.Shared.{
  ℕ, suc, ◌+◌, ◌*◌, ◌^◌, min, String, Bool, true, false, not, ◌&&◌, ◌||◌, Option, none, some, List,
  [], ◌∷◌, ◌++◌, ltb, leb, ◌==◌, str_eq, or_else, is_some, is_num, if◌then◌else◌,
}
use syncwatch.Connection.{
  Connection, text, num, Fields, Call, request_ticket, open_socket, close_socket, send_frame,
  set_connect_timeout, clear_connect_timeout, set_reconnect_timeout, clear_reconnect_timeout,
  deliver, fatal, reset_room,
}
use syncwatch.Protocol.{WsBody, error, WsMessage}

unfoldable pub reconnect_delay : ℕ → ℕ
reconnect_delay attempt = min (1000 * 2 ^ attempt) 30000

unfoldable pub schedule_reconnect : Connection → Connection × List Call
schedule_reconnect c =
    let delay = reconnect_delay c.reconnect_attempt in
    if not c.should_reconnect || c.intentional_close || is_some c.reconnect_timeout
    then (c, [])
    else (
      record c {
        reconnect_timeout = some delay;
        reconnect_attempt = c.reconnect_attempt + 1;
        is_reconnecting = true;
      },
      set_reconnect_timeout delay ∷ [],
    )

-- `connect` up to its `await`.
unfoldable pub connect : String → Connection → Connection × List Call
connect room c =
    if str_eq room "" || not c.should_reconnect || c.intentional_close
    then (c, [])
    else (c, request_ticket c.mount_id ∷ [])

-- The timer of `scheduleReconnect` fires.
unfoldable pub on_reconnect_timeout : String → Connection → Connection × List Call
unfolding connect
on_reconnect_timeout room c = connect room (record c { reconnect_timeout = none })

-- `connect` after its `await`, for the mount that it captured; `socket` is the new socket.
unfoldable pub on_ticket :
    (mount socket : ℕ) (ticket : String) → Connection → Connection × List Call
on_ticket mount socket ticket c =
    if not c.should_reconnect || c.intentional_close || not (mount == c.mount_id)
    then (c, [])
    else (record c { ws = some socket }, open_socket socket ticket ∷ [])

-- The client errors after which the hook gives up, all of 400 to 499 but 401 and 429.
abbrev pub is_fatal : ℕ → Bool
is_fatal status = leb 400 status && ltb status 500 && not (status == 401) && not (status == 429)

give_up : ℕ → Connection → Connection × List Call
give_up status c = (
  record c {
    intentional_close = true;
    should_reconnect = false;
    is_connected = false;
    is_reconnecting = false;
  },
  fatal status ∷ [],
)

-- The `catch` of `connect`: the ticket request failed, with the status of its response if there was
-- one. The captured mount is at hand and is not read.
unfoldable pub on_ticket_error : (mount : ℕ) → Option ℕ → Connection → Connection × List Call
unfolding give_up schedule_reconnect
on_ticket_error mount none c = schedule_reconnect (record c { is_connected = false })
on_ticket_error mount (some status) c =
    if is_fatal status
    then give_up status c
    else schedule_reconnect (record c { is_connected = false })

abbrev pub reconnect_frame : (last_seq file_version : ℕ) → Fields
reconnect_frame last_seq file_version =
    ("type", text "reconnect")
    ∷ ("last_seq", num last_seq)
    ∷ ("file_version", num file_version)
    ∷ []

unfoldable pub on_open : (socket file_version : ℕ) → Connection → Connection × List Call
on_open socket file_version c = (
  record c {
    reconnect_attempt = 0;
    is_connected = true;
    is_reconnecting = false;
    last_seq = none;
    has_connected = true;
  },
  if c.has_connected
      then send_frame socket (reconnect_frame (or_else c.last_seq 0) file_version) ∷ []
      else [],
)

-- `msg.seq !== undefined && lastSeqRef.current !== null && msg.seq <= lastSeqRef.current`
abbrev pub is_stale : Option ℕ → Option ℕ → Bool
is_stale (some seq) (some last) = leb seq last
is_stale _ _ = false

-- `msg.seq ?? last`, as the `if` around the assignment has it
abbrev pub seq_after : Option ℕ → Option ℕ → Option ℕ
seq_after (some seq) last = some seq
seq_after none last = last

abbrev pub is_tab_replaced : WsBody → Bool
is_tab_replaced (error code message) = str_eq code "tab_replaced"
is_tab_replaced _ = false

unfoldable pub on_message : WsMessage → Connection → Connection × List Call
on_message msg c = if is_stale msg.seq c.last_seq then (c, []) else (
  record c {
    last_seq = seq_after msg.seq c.last_seq;
    intentional_close = is_tab_replaced msg.body || c.intentional_close;
  },
  deliver msg ∷ [],
)

unfoldable pub on_error : (socket : ℕ) → Connection → Connection × List Call
on_error socket c = (c, close_socket socket ∷ [])

unfoldable pub on_close : (mount socket : ℕ) → Connection → Connection × List Call
unfolding schedule_reconnect
on_close mount socket c =
    let shut = record c { ws = if is_num c.ws socket then none else c.ws; is_connected = false } in
    if c.should_reconnect && not c.intentional_close && mount == c.mount_id
    then schedule_reconnect shut
    else (record shut { is_reconnecting = false }, [])

-- The effect of the hook, for a room that has an id.
unfoldable pub on_mount : String → Connection → Connection × List Call
on_mount room c = if str_eq room "" then (c, []) else (
  record c {
    mount_id = c.mount_id + 1;
    should_reconnect = true;
    intentional_close = false;
    has_connected = false;
    reconnect_attempt = 0;
  },
  set_connect_timeout ∷ [],
)

abbrev pub close_held : Option ℕ → List Call
close_held none = []
close_held (some socket) = close_socket socket ∷ []

-- The effect's cleanup.
unfoldable pub on_unmount : Connection → Connection × List Call
on_unmount c = (
  record c {
    should_reconnect = false;
    intentional_close = true;
    reconnect_timeout = none;
    ws = none;
    is_connected = false;
    is_reconnecting = false;
  },
  clear_connect_timeout ∷ (if is_some c.reconnect_timeout then clear_reconnect_timeout ∷ [] else [])
      ++ close_held c.ws
      ++ reset_room ∷ [],
)

-- A callback of the hook; `unmounts` is the cleanup, and `connects` the timer set on mounting.
pub data Event : Type 0 where
  mounts connects reconnect_fires : (room : String) → Event
  unmounts : Event
  ticket_issued : (mount socket : ℕ) (ticket : String) → Event
  ticket_refused : (mount : ℕ) (status : Option ℕ) → Event
  opens : (socket file_version : ℕ) → Event
  receives : WsMessage → Event
  fails : (socket : ℕ) → Event
  closes : (mount socket : ℕ) → Event

unfoldable pub step : Event → Connection → Connection × List Call
unfolding on_mount connect on_reconnect_timeout on_unmount on_ticket on_ticket_error on_open
    on_message on_error on_close
step (mounts room) c = on_mount room c
step (connects room) c = connect room c
step (reconnect_fires room) c = on_reconnect_timeout room c
step unmounts c = on_unmount c
step (ticket_issued mount socket ticket) c = on_ticket mount socket ticket c
step (ticket_refused mount status) c = on_ticket_error mount status c
step (opens socket version) c = on_open socket version c
step (receives msg) c = on_message msg c
step (fails socket) c = on_error socket c
step (closes mount socket) c = on_close mount socket c

unfoldable pub run : List Event → Connection → Connection × List Call
run [] c = (c, [])
run (e ∷ es) c = let (c', calls) = step e c in let (c'', more) = run es c' in (c'', calls ++ more)
