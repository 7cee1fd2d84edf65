-- ===== src/Socket/Stale.antt =====
-- frontend/src/hooks/useWebSocket.ts: the close of a socket that belongs to an earlier mount of the hook.
use syncwatch.Shared.{
  ℕ, String, ◌≡◌, ◌≢◌, refl, ◌∙◌, Bool-cases, inl, inr, true, false, some, List, [], ◌∷◌, arith,
  is_num, not, ◌&&◌, ◌==◌,
}
use syncwatch.Protocol.{WsMessage}
use syncwatch.Connection.{Connection, Fields, send_frame}
use syncwatch.Socket.{closes, run, on_message, on_close, is_stale, step}
use syncwatch.Socket.Frames.{send, outgoing}
use syncwatch.Socket.Seq.{arrivals}

-- The connection, said to be down.
abbrev pub down : Connection → Connection
down c = record c { is_connected = false; is_reconnecting = false }

on_message-down :
    (m : WsMessage) (c : Connection)
    → on_message m (down c) ≡ (down (on_message m c).0, (on_message m c).1)
unfolding on_message
on_message-down m c = elim (Bool-cases (is_stale m.seq c.last_seq)) [
  | inl old ↦ rw old refl
  | inr new ↦ rw new refl
]

run-down :
    (ms : List WsMessage) (c : Connection)
    → run (arrivals ms) (down c) ≡ (down (run (arrivals ms) c).0, (run (arrivals ms) c).1)
unfolding run step
run-down [] c = refl
run-down (m ∷ ms) c = rw (on_message-down m c) (rw (run-down ms (on_message m c).0) refl)

ws-on_message : (m : WsMessage) (c : Connection) → (on_message m c).0.ws ≡ c.ws
unfolding on_message
ws-on_message m c = ground arith

ws-run : (ms : List WsMessage) (c : Connection) → (run (arrivals ms) c).0.ws ≡ c.ws
unfolding run step
ws-run [] c = refl
ws-run (m ∷ ms) c = ws-run ms (on_message m c).0 ∙ ws-on_message m c

on_close-down :
    (mount socket current : ℕ) (c : Connection)
    → mount ≢ c.mount_id
    → c.ws ≡ some current
    → current ≢ socket
    → on_close mount socket c ≡ (down c, [])
unfolding on_close
on_close-down mount socket current c h w k =
    let other : is_num c.ws socket ≡ false = rw w (ground arith) in
    let late : (c.should_reconnect && not c.intentional_close && mount == c.mount_id) ≡ false =
      ground arith in
    rw other (rw late refl)

run-stale_close :
    (mount socket current : ℕ) (ms : List WsMessage) (c : Connection)
    → mount ≢ c.mount_id
    → c.ws ≡ some current
    → current ≢ socket
    → run (closes mount socket ∷ arrivals ms) c
      ≡ (down (run (arrivals ms) c).0, (run (arrivals ms) c).1)
unfolding run step
run-stale_close mount socket current ms c h w k =
    rw (on_close-down mount socket current c h w k) (run-down ms c)

-- When a socket of an earlier mount closes while the current one is held: whatever messages arrive after it, the
-- hook does with them just what it would have done without that close, and its open socket still takes what
-- is sent, but the hook says that it is not connected, and goes on to.
pub stale_close_hides :
    (mount socket current version : ℕ) (kind : String) (payload : Fields) (ms : List WsMessage)
    (c : Connection)
    → mount ≢ c.mount_id
    → c.ws ≡ some current
    → current ≢ socket
    → let (c', calls) = run (closes mount socket ∷ arrivals ms) c in
      (calls ≡ (run (arrivals ms) c).1)
      × (c'.last_seq ≡ (run (arrivals ms) c).0.last_seq)
      × (send true kind payload version c'
          ≡ (true, send_frame current (outgoing kind payload version) ∷ []))
      × (c'.is_connected ≡ false)
unfolding send
stale_close_hides mount socket current version kind payload ms c h w k =
    let held = ws-run ms c ∙ w in
    rw (run-stale_close mount socket current ms c h w k) (refl, refl, rw held refl, refl)
