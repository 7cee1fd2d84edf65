-- ===== src/Examples/SocketRuns.antt =====
-- Runs of the connection (frontend/src/hooks/useWebSocket.ts).
use syncwatch.Shared.{ℕ, ◌≤◌, ◌≡◌, refl, true, false, none, some, List, [], ◌∷◌, arith, any}
use syncwatch.Connection.{Connection, send_frame}
use syncwatch.Socket.Frames.{send, outgoing}
use syncwatch.Socket.{
  Event, reconnect_fires, unmounts, ticket_issued, opens, closes, run, reconnect_delay,
}
use syncwatch.Protocol.{WsMessage, unknown}
use syncwatch.Socket.Backoff.{reconnect_delay_lem}
use syncwatch.Socket.Seq.{
  seqs, delivered, Increasing, arrivals, delivered-Increasing, delivered-opens,
}
use syncwatch.Socket.Shutdown.{reaches_out, ends_quiet}
use syncwatch.Socket.Stale.{stale_close_hides}

-- A connection that is open at its second mount, and has seen message 40.
abbrev pub live : Connection
live = record {
  is_connected = true;
  is_reconnecting = false;
  ws = some 5;
  reconnect_timeout = none;
  reconnect_attempt = 0;
  should_reconnect = true;
  intentional_close = false;
  has_connected = true;
  mount_id = 2;
  last_seq = some 40;
}

reconnect_delay_lem_example :
    (reconnect_delay 3 ≡ 8000) × (1000 ≤ reconnect_delay 3) × (reconnect_delay 3 ≤ 30000)
reconnect_delay_lem_example = reconnect_delay_lem 3

abbrev pub numbered : ℕ → WsMessage
numbered n = record { seq = some n; server_time = none; file_version = none; body = unknown }

delivered-Increasing_example :
    Increasing
      (some 40)
      (seqs (delivered (run (arrivals (numbered 39 ∷ numbered 41 ∷ numbered 41 ∷ [])) live).1))
delivered-Increasing_example =
    delivered-Increasing (numbered 39 ∷ numbered 41 ∷ numbered 41 ∷ []) live

delivered-opens_example :
    delivered (run (opens 6 2 ∷ arrivals (numbered 1 ∷ numbered 2 ∷ [])) live).1
    ≡ numbered 1 ∷ numbered 2 ∷ []
delivered-opens_example = delivered-opens (numbered 1 ∷ numbered 2 ∷ []) 6 2 live (omega arith)

abbrev late_callbacks : List Event
late_callbacks = closes 2 5 ∷ reconnect_fires "room" ∷ ticket_issued 2 6 "t" ∷ []

ends_quiet_example : any reaches_out (run (unmounts ∷ late_callbacks) live).1 ≡ false
ends_quiet_example = ends_quiet unmounts late_callbacks live refl refl

abbrev frames : List WsMessage
frames = numbered 39 ∷ numbered 41 ∷ []

stale_close_hides_example :
    let (c', calls) = run (closes 1 4 ∷ arrivals frames) live in
    (calls ≡ (run (arrivals frames) live).1)
    × (c'.last_seq ≡ (run (arrivals frames) live).0.last_seq)
    × (send true "chat_send" [] 2 c' ≡ (true, send_frame 5 (outgoing "chat_send" [] 2) ∷ []))
    × (c'.is_connected ≡ false)
stale_close_hides_example =
    stale_close_hides 1 4 5 2 "chat_send" [] frames live (omega arith) refl (omega arith)

-- `https://h/api/` is configured.
abbrev configured : List ℕ
configured =
    b'h' ∷ b't' ∷ b't' ∷ b'p' ∷ b's' ∷ b':' ∷ b'/' ∷ b'/' ∷ b'h' ∷ b'/' ∷ b'a' ∷ b'p' ∷ b'i' ∷ b'/'
    ∷ []
