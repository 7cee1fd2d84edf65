-- ===== src/Handler/Grace.antt =====
-- frontend/src/hooks/useRoomWsHandler.ts: the countdown of the host's grace period.
use syncwatch.Shared.{
  ℕ, zero, suc, ◌-◌, String, ◌≡◌, refl, sym, ap, subst, ◌∙◌, inl, inr, Bool, true, false, Option,
  none, some, List, [], ◌∷◌, arith, leb, or_else, round_thousandth, if◌then◌else◌, Bool-cases,
  Option-cases,
}
use syncwatch.Protocol.{
  closing, sync_state, sync_correction, sync_check, playback_rate, WsBody, WsMessage, room_state,
  file_verify_response, host_disconnected, host_reconnected, room_closed, sync,
}
use syncwatch.Session.{
  RoomClient, grace_left, drop_local_file, set_host_present, set_host_gone, rehydrate_host,
  grace_tick, tick_from,
}
use syncwatch.Handler.{adopt_snapshot, is_new_version, dispatch, handle, left}

-- The countdown agrees with the timer and with the host's presence: a running timer means that the host
-- is gone and shows the seconds left, and while the host is there no timer runs and the countdown is 0.
pub record IsCounting (c : RoomClient) : Type 0 where
  pub running :
      (r : ℕ)
      → c.grace_timer ≡ some r
      → (c.store.host_disconnected ≡ true) × (c.store.grace_countdown ≡ r)
  pub present :
      c.store.host_disconnected ≡ false → (c.grace_timer ≡ none) × (c.store.grace_countdown ≡ 0)

gone-IsCounting : (n : ℕ) (c : RoomClient) → IsCounting (set_host_gone n c)
unfolding set_host_gone
gone-IsCounting n c = record { running = λ r e. ground arith; present = λ e. cc }

present-IsCounting : (c : RoomClient) → IsCounting (set_host_present c)
unfolding set_host_present
present-IsCounting c = record { running = λ r e. cc; present = λ e. (refl, refl) }

-- Whatever shares the three fields shares the property.
same-IsCounting :
    (c c' : RoomClient)
    → c'.grace_timer ≡ c.grace_timer
    → c'.store.host_disconnected ≡ c.store.host_disconnected
    → c'.store.grace_countdown ≡ c.store.grace_countdown
    → IsCounting c
    → IsCounting c'
same-IsCounting c c' p q w h = record {
  running = λ r e. ground (arith, h.running r);
  present = λ e. ground (arith, h.present);
}

rehydrate-IsCounting : (left : Option ℕ) (c : RoomClient) → IsCounting (rehydrate_host left c)
unfolding rehydrate_host
rehydrate-IsCounting none c = present-IsCounting c
rehydrate-IsCounting (some ms) c = gone-IsCounting _ c

drop-IsCounting :
    (b : Bool) (c : RoomClient) → IsCounting c → IsCounting (if b then drop_local_file c else c)
unfolding drop_local_file
drop-IsCounting true c h = same-IsCounting c _ refl refl refl h
drop-IsCounting false c h = h

adopt-IsCounting :
    (matches : Bool) (reason : Option String) (v : Option ℕ) (hash : Option String) (c : RoomClient)
    → IsCounting c
    → IsCounting (dispatch (file_verify_response matches reason hash) v c).0
unfolding dispatch
adopt-IsCounting true reason none hash c h = same-IsCounting c _ refl refl refl h
adopt-IsCounting true reason (some v) hash c h = same-IsCounting c _ refl refl refl h
adopt-IsCounting false reason v hash c h = same-IsCounting c _ refl refl refl h

dispatch-IsCounting :
    (b : WsBody) (v : Option ℕ) (c : RoomClient) → IsCounting c → IsCounting (dispatch b v c).0
unfolding dispatch
dispatch-IsCounting (room_state m) v c h =
    let next = or_else v m.file_info.file_version in
    let left = grace_left m.host_disconnected m.host_grace_remaining_ms in
    drop-IsCounting (is_new_version c.file_version_ref next)
      (rehydrate_host left (adopt_snapshot m next c))
      (rehydrate-IsCounting left (adopt_snapshot m next c))
dispatch-IsCounting (sync (sync_state p t)) v c h = same-IsCounting c _ refl refl refl h
dispatch-IsCounting (sync (sync_correction a t)) v c h = h
dispatch-IsCounting (sync (sync_check t p)) v c h = h
dispatch-IsCounting (sync (playback_rate r)) v c h = h
dispatch-IsCounting (host_disconnected ms) v c h =
    same-IsCounting (set_host_gone (round_thousandth ms) c) _ refl refl refl (gone-IsCounting _ c)
dispatch-IsCounting (host_reconnected st) v c h =
    same-IsCounting (set_host_present c) _ refl refl refl (present-IsCounting c)
dispatch-IsCounting (room_closed reason) v c h = record {
  running = λ r e. cc;
  present = λ e. (refl, (h.present e).1);
}
dispatch-IsCounting (file_verify_response m r f) v c h = adopt-IsCounting m r v f c h
dispatch-IsCounting _ v c h = same-IsCounting c _ refl refl refl h

pub handle-IsCounting :
    (msg : WsMessage) (c : RoomClient) → IsCounting c → IsCounting (handle msg c).0
unfolding handle
handle-IsCounting msg c h = dispatch-IsCounting msg.body msg.file_version c h

tick_from-none : (o : Option ℕ) (c : RoomClient) → o ≡ none → tick_from o c ≡ c
unfolding tick_from
tick_from-none none c e = refl
tick_from-none (some r) c e = cc

-- One second of a running timer.
tick_from-some :
    (o : Option ℕ) (r : ℕ) (c : RoomClient)
    → o ≡ some r
    → ((tick_from o c).store.host_disconnected ≡ c.store.host_disconnected)
      × ((tick_from o c).store.grace_countdown ≡ r - 1)
      × ((tick_from o c).grace_timer ≡ (if leb (r - 1) 0 then none else some (r - 1)))
unfolding tick_from
tick_from-some none r c e = cc
tick_from-some (some n) r c e = ground arith

tick-IsCounting : (c : RoomClient) → IsCounting c → IsCounting (grace_tick c)
unfolding grace_tick
tick-IsCounting c h = elim (Option-cases c.grace_timer) [
  | inl e ↦ subst IsCounting (sym (tick_from-none c.grace_timer c e)) h
  | inr (r, e) ↦ record {
    running = λ n t. ground (arith, tick_from-some c.grace_timer r c e, h.running r e);
    present = λ n. ground (arith, tick_from-some c.grace_timer r c e, h.running r e);
  }
]

-- What happens to the client: a message arrives, or a second of the countdown passes.
pub data Event : Type 0 where
  received : WsMessage → Event
  second_passed : Event

abbrev pub step : Event → RoomClient → RoomClient
step (received msg) c = (handle msg c).0
step second_passed c = grace_tick c

pub run : List Event → RoomClient → RoomClient
run [] c = c
run (e ∷ es) c = run es (step e c)

-- After any sequence of messages and seconds, a running timer means that the host is gone and shows
-- the seconds it has left, and while the host is there no timer runs and the countdown is 0.
pub run-IsCounting : (es : List Event) (c : RoomClient) → IsCounting c → IsCounting (run es c)
unfolding run
run-IsCounting [] c h = h
run-IsCounting (received msg ∷ es) c h = run-IsCounting es _ (handle-IsCounting msg c h)
run-IsCounting (second_passed ∷ es) c h = run-IsCounting es _ (tick-IsCounting c h)

pub ticks : ℕ → RoomClient → RoomClient
ticks zero c = c
ticks (suc k) c = ticks k (grace_tick c)

ticks_idle : (k : ℕ) (c : RoomClient) → c.grace_timer ≡ none → ticks k c ≡ c
unfolding ticks grace_tick
ticks_idle zero c e = refl
ticks_idle (suc k) c e = ap (ticks k) (tick_from-none c.grace_timer c e) ∙ ticks_idle k c e

-- `k + 1` seconds of a running timer.
record Counted (r k : ℕ) (c c' : RoomClient) : Type 0 where
  same_host : c'.store.host_disconnected ≡ c.store.host_disconnected
  countdown : c'.store.grace_countdown ≡ r - k
  timer : c'.grace_timer ≡ (if leb r k then none else some (r - k))

ticks-Counted :
    (k r : ℕ) (c : RoomClient) → c.grace_timer ≡ some r → Counted r (suc k) c (ticks (suc k) c)
unfolding ticks grace_tick
ticks-Counted zero r c e = ground (arith, tick_from-some c.grace_timer r c e)
ticks-Counted (suc k) r c e =
    let (same, shown, left) = tick_from-some c.grace_timer r c e in
    elim (Bool-cases (leb (r - 1) 0)) [
      | inl over ↦ ground (arith, same, shown, left, ticks_idle (suc k) (grace_tick c))
      | inr more ↦ ground (arith, same, shown, left, ticks-Counted k (r - 1) (grace_tick c))
    ]

-- When the host disconnects with a grace period, the client shows the room as closing and the host as
-- gone, and after k + 1 seconds it shows the period's whole seconds less k + 1, down to 0, where the
-- timer has stopped.
pub host_disconnected-countdown :
    (ms k : ℕ) (v : Option ℕ) (c : RoomClient)
    → let c' = (dispatch (host_disconnected ms) v c).0 in
      let later = ticks (suc k) c' in
      (c'.room_status ≡ closing)
      × (later.store.host_disconnected ≡ true)
      × (later.store.grace_countdown ≡ round_thousandth ms - suc k)
      × (later.grace_timer ≡ (
          if leb (round_thousandth ms) (suc k) then none else some (round_thousandth ms - suc k)))
unfolding dispatch
host_disconnected-countdown ms k v c =
    let counted = ticks-Counted k (round_thousandth ms) _ refl in
    (refl, counted.same_host, counted.countdown, counted.timer)
