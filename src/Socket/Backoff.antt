-- ===== src/Socket/Backoff.antt =====
-- frontend/src/hooks/useWebSocket.ts: how long the hook waits before it connects again.
use native.Mathlib.Nat.{pow-suc}
use syncwatch.Shared.{
  ℕ, zero, suc, ◌+◌, ◌*◌, ◌^◌, ◌≤◌, String, ◌≡◌, ◌≢◌, true, false, none, some, List, [], ◌∷◌, arith,
  ltb, if◌then◌else◌,
}
use syncwatch.Connection.{Connection, Call, request_ticket, set_reconnect_timeout}
use syncwatch.Socket.{Event, reconnect_fires, ticket_refused, reconnect_delay}

pow_ge : (k : ℕ) → 32 ≤ 2 ^ suc (suc (suc (suc (suc k))))
pow_ge zero = omega arith
pow_ge (suc k) = rw (pow-suc 2 (suc (suc (suc (suc (suc k)))))) (omega (arith, pow_ge k))

-- The delay before an attempt is one second doubled with each attempt up to the fifth, and 30 seconds
-- from then on; so it lies between one second and 30 seconds.
pub reconnect_delay_lem :
    (n : ℕ)
    → (reconnect_delay n ≡ (if ltb n 5 then 1000 * 2 ^ n else 30000))
      × (1000 ≤ reconnect_delay n)
      × (reconnect_delay n ≤ 30000)
unfolding reconnect_delay
reconnect_delay_lem zero = omega arith
reconnect_delay_lem (suc zero) = omega arith
reconnect_delay_lem (suc (suc zero)) = omega arith
reconnect_delay_lem (suc (suc (suc zero))) = omega arith
reconnect_delay_lem (suc (suc (suc (suc zero)))) = omega arith
reconnect_delay_lem (suc (suc (suc (suc (suc k))))) = ground (arith, pow_ge k)

-- `k` rounds in which the ticket request fails with no response and the timer then fires.
abbrev pub failing : ℕ → (mount : ℕ) → (room : String) → List Event
failing zero mount room = []
failing (suc k) mount room = ticket_refused mount none ∷ reconnect_fires room ∷ failing k mount room

-- The waits and the new requests of `k` rounds, from attempt `n` on.
abbrev pub waits : ℕ → (n mount : ℕ) → List Call
waits zero n mount = []
waits (suc k) n mount =
    set_reconnect_timeout (reconnect_delay n) ∷ request_ticket mount ∷ waits k (n + 1) mount

-- A hook that is meant to stay connected to a room and has no reconnect pending.
pub record IsTrying (room : String) (c : Connection) : Type 0 where
  pub named : room ≢ ""
  pub wanted : c.should_reconnect ≡ true
  pub not_closed : c.intentional_close ≡ false
  pub no_timer : c.reconnect_timeout ≡ none

-- The connection while the timer runs, and after it has fired.
abbrev waiting : Connection → Connection
waiting c = record c {
  is_connected = false;
  reconnect_timeout = some (reconnect_delay c.reconnect_attempt);
  reconnect_attempt = c.reconnect_attempt + 1;
  is_reconnecting = true;
}

abbrev retrying : Connection → Connection
retrying c = record (waiting c) { reconnect_timeout = none }
