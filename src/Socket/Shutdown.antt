-- ===== src/Socket/Shutdown.antt =====
-- frontend/src/hooks/useWebSocket.ts: after the hook has given up or is unmounted.
use syncwatch.Shared.{
  ◌≡◌, refl, Bool, true, false, not, ◌&&◌, ◌||◌, none, some, List, [], ◌∷◌, ◌++◌, arith, any,
}
use syncwatch.Connection.{
  Connection, Call, request_ticket, open_socket, set_connect_timeout, set_reconnect_timeout,
}
use syncwatch.Socket.{
  Event, mounts, unmounts, ticket_refused, receives, step, run, is_fatal, is_stale, is_tab_replaced,
}

abbrev pub is_mount : Event → Bool
is_mount (mounts room) = true
is_mount _ = false

-- A call that works towards a connection.
abbrev pub reaches_out : Call → Bool
reaches_out (request_ticket mount) = true
reaches_out (open_socket socket ticket) = true
reaches_out set_connect_timeout = true
reaches_out (set_reconnect_timeout ms) = true
reaches_out _ = false

step_quiet :
    (e : Event) (c : Connection)
    → is_mount e ≡ false
    → c.intentional_close ≡ true
    → ((step e c).0.intentional_close ≡ true) × (any reaches_out (step e c).1 ≡ false)
unfolding step
step_quiet (mounts room) c h k = cc
step_quiet (ticket_refused mount none) c h k = ground arith
step_quiet (ticket_refused mount (some status)) c h k = ground arith
step_quiet _ c h k = ground arith

any-append : (p : Call → Bool) (xs ys : List Call) → any p (xs ++ ys) ≡ (any p xs || any p ys)
any-append p [] ys = refl
any-append p (x ∷ xs) ys = ground (arith, any-append p xs ys)

-- Once the hook has closed on purpose, whatever callbacks still come (late tickets, timers, messages and
-- closes of any socket), none but a new mount makes it ask for a ticket, open a socket or start a
-- timer.
pub run_quiet :
    (es : List Event) (c : Connection)
    → any is_mount es ≡ false
    → c.intentional_close ≡ true
    → ((run es c).0.intentional_close ≡ true) × (any reaches_out (run es c).1 ≡ false)
unfolding run
run_quiet [] c h k = (k, refl)
run_quiet (e ∷ es) c h k = ground (
  arith,
  step_quiet e c,
  run_quiet es (step e c).0,
  any-append reaches_out (step e c).1 (run es (step e c).0).1,
)

-- What closes the hook on purpose.
abbrev pub ends : Event → Connection → Bool
ends unmounts c = true
ends (ticket_refused mount (some status)) c = is_fatal status
ends (receives msg) c = not (is_stale msg.seq c.last_seq) && is_tab_replaced msg.body
ends _ c = false

step-ends :
    (e : Event) (c : Connection)
    → ends e c ≡ true
    → ((step e c).0.intentional_close ≡ true) × (any reaches_out (step e c).1 ≡ false)
unfolding step
step-ends unmounts c h = ground (arith, h)
step-ends (ticket_refused mount (some status)) c h = ground arith
step-ends (receives msg) c h = ground arith
step-ends _ c h = cc

-- The hook closes on purpose at its unmounting, at a fatal refusal of a ticket and at the message that
-- another tab took over; from then on, with no new mount, nothing works towards a connection.
pub ends_quiet :
    (e : Event) (es : List Event) (c : Connection)
    → ends e c ≡ true
    → any is_mount es ≡ false
    → any reaches_out (run (e ∷ es) c).1 ≡ false
unfolding run
ends_quiet e es c h k = ground (
  arith,
  step-ends e c,
  run_quiet es (step e c).0,
  any-append reaches_out (step e c).1 (run es (step e c).0).1,
)
