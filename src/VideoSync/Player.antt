-- ===== src/VideoSync/Player.antt =====
-- frontend/src/hooks/useVideoSync.ts: what the commands do to a player that behaves as a media element
-- is documented to.
use syncwatch.Shared.{
  ℕ, ◌+◌, ◌*◌, ◌≤◌, ◌<◌, ◌≡◌, ◌∙◌, refl, any, ◌||◌, inl, inr, Bool, true, false, not, ◌&&◌, Option,
  some, List, [], ◌∷◌, arith, ltb, if◌then◌else◌, Bool-cases,
}
use syncwatch.Protocol.{sync_state, SyncMessage}
use syncwatch.VideoSync.{
  Video, SyncState, Command, seek, play, resume, pause, set_rate, restart_nudge_timer, send,
  distance, align, remember, is_other_version, handle_sync_message,
}

-- A media element: what can be read of it, how long it is, whether the browser lets it start, and the calls
-- that the hook makes, with their documented effects on the position and on `paused`. `play` that is refused,
-- whose promise is then rejected, leaves `paused` as it is; at the end of the medium it would begin again, and
-- a position behind the end is not taken.
pub record Player : Type 1 where
  pub Element : Type 0
  pub look : Element → Video
  pub duration_us : Element → ℕ
  pub lets_play : Element → Bool
  pub set_current_time : ℕ → Element → Element
  pub call_play : Element → Element
  pub call_pause : Element → Element
  pub set_playback_rate : ℕ → Element → Element
  pub duration-set_current_time :
      (t : ℕ) (e : Element) → duration_us (set_current_time t e) ≡ duration_us e
  pub lets_play-set_current_time :
      (t : ℕ) (e : Element) → lets_play (set_current_time t e) ≡ lets_play e
  pub current-set_current_time :
      (t : ℕ) (e : Element) → t ≤ duration_us e → (look (set_current_time t e)).current_us ≡ t
  pub paused-set_current_time :
      (t : ℕ) (e : Element) → (look (set_current_time t e)).is_paused ≡ (look e).is_paused
  pub current-call_play :
      (e : Element)
      → (look e).current_us < duration_us e
      → (look (call_play e)).current_us ≡ (look e).current_us
  pub paused-call_play :
      (e : Element) → (look (call_play e)).is_paused ≡ ((look e).is_paused && not (lets_play e))
  pub current-call_pause : (e : Element) → (look (call_pause e)).current_us ≡ (look e).current_us
  pub paused-call_pause : (e : Element) → (look (call_pause e)).is_paused ≡ true

-- The call of `play` that follows the room.
abbrev pub is_play : Command → Bool
is_play play = true
is_play _ = false

module _ (p : Player) where
  open p use {
    Element, look, duration_us, lets_play, set_current_time, call_play, call_pause,
    set_playback_rate, duration-set_current_time, lets_play-set_current_time,
    current-set_current_time, paused-set_current_time, current-call_play, paused-call_play,
    current-call_pause, paused-call_pause,
  }

  pub perform : Command → Element → Element
  perform (seek t) e = set_current_time t e
  perform play e = call_play e
  perform resume e = call_play e
  perform pause e = call_pause e
  perform (set_rate r) e = set_playback_rate r e
  perform restart_nudge_timer e = e
  perform (send kind payload) e = e

  pub perform_all : List Command → Element → Element
  unfolding perform
  perform_all [] e = e
  perform_all (c ∷ cs) e = perform_all cs (perform c e)

  -- The element is paused, and the browser does not let it start.
  abbrev pub is_held : Element → Bool
  is_held e = (look e).is_paused && not (lets_play e)

  -- The position of the room lies in the medium, more than a quarter of a second before its end.
  abbrev pub Covers : (ms : ℕ) → Element → Type 0
  Covers ms e = ms * 1000 + 250000 < duration_us e

  -- The element `e` is where the room is, to a quarter of a second, and is paused just if the room is, or if it
  -- was held before, as `before`.
  pub record Follows (is_playing : Bool) (ms : ℕ) (before e : Element) : Type 0 where
    pub near : distance (look e).current_us (ms * 1000) ≤ 250000
    pub paused_as_room : (look e).is_paused ≡ (not is_playing || is_held before)

  -- The element after the seek that may come first.
  record Moved (ms : ℕ) (before e : Element) : Type 0 where
    near : distance (look e).current_us (ms * 1000) ≤ 250000
    inside : (look e).current_us < duration_us e
    was_paused : (look e).is_paused ≡ (look before).is_paused
    held : is_held e ≡ is_held before

  start-Follows :
      (ms : ℕ) (was_paused : Bool) (before e : Element)
      → Moved ms before e
      → (look e).is_paused ≡ was_paused
      → Follows true ms before (perform_all (if was_paused then play ∷ [] else []) e)
  unfolding perform_all
  start-Follows ms true before e m was = record {
    near = rw (current-call_play e m.inside) m.near;
    paused_as_room = paused-call_play e ∙ m.held;
  }
  start-Follows ms false before e m was = record {
    near = m.near;
    paused_as_room = ground (arith, was, m.held);
  }

  stop-Follows :
      (ms : ℕ) (was_paused : Bool) (before e : Element)
      → Moved ms before e
      → (look e).is_paused ≡ was_paused
      → Follows false ms before (perform_all (if was_paused then [] else pause ∷ []) e)
  unfolding perform_all
  stop-Follows ms true before e m was = record { near = m.near; paused_as_room = was }
  stop-Follows ms false before e m was = record {
    near = rw (current-call_pause e) m.near;
    paused_as_room = paused-call_pause e;
  }

  seek-Moved : (ms : ℕ) (e : Element) → Covers ms e → Moved ms e (set_current_time (ms * 1000) e)
  seek-Moved ms e c =
      let within : ms * 1000 ≤ duration_us e = omega (arith, c) in
      let there = current-set_current_time (ms * 1000) e within in
      let same = duration-set_current_time (ms * 1000) e in
      record {
        near = rw there (omega arith);
        inside = omega (arith, there, same, c);
        was_paused = paused-set_current_time (ms * 1000) e;
        held = ground (
          arith,
          paused-set_current_time (ms * 1000) e,
          lets_play-set_current_time (ms * 1000) e,
        );
      }

  near-Moved :
      (ms : ℕ) (e : Element)
      → Covers ms e
      → distance (look e).current_us (ms * 1000) ≤ 250000
      → Moved ms e e
  near-Moved ms e c near = record {
    near = near;
    inside = omega (arith, near, c);
    was_paused = refl;
    held = refl;
  }

  align-Follows :
      (is_playing : Bool) (ms : ℕ) (e : Element) (s : SyncState)
      → Covers ms e
      → Follows is_playing ms e (perform_all (align is_playing ms (look e) s).1 e)
  unfolding align perform_all
  align-Follows true ms e s c =
      elim (Bool-cases (ltb 250000 (distance (look e).current_us (ms * 1000)))) [
        | inl far ↦
            let m = seek-Moved ms e c in
            rw far (
              start-Follows ms (look e).is_paused e (set_current_time (ms * 1000) e) m m.was_paused)
        | inr near ↦
            rw near
              (start-Follows ms (look e).is_paused e e (near-Moved ms e c (ground arith)) refl)
      ]
  align-Follows false ms e s c =
      elim (Bool-cases (ltb 250000 (distance (look e).current_us (ms * 1000)))) [
        | inl far ↦
            let m = seek-Moved ms e c in
            rw far
              (stop-Follows ms (look e).is_paused e (set_current_time (ms * 1000) e) m m.was_paused)
        | inr near ↦
            rw near (stop-Follows ms (look e).is_paused e e (near-Moved ms e c (ground arith)) refl)
      ]

  align-is_play :
      (is_playing : Bool) (ms : ℕ) (v : Video) (s : SyncState)
      → any is_play (align is_playing ms v s).1 ≡ (is_playing && v.is_paused)
  unfolding align
  align-is_play true ms v s = ground arith
  align-is_play false ms v s = ground arith

  -- After a playback state of the room that is not for another version of the file, whose position is more than
  -- a quarter of a second before the end: the element is within a quarter of a second of the room's position; it
  -- is paused just if the room is, or if it was paused and the browser does not let it start; `play` is called
  -- just if the room plays and the element was paused; and where the room is paused, the autoplay overlay is
  -- gone.
  pub sync_state-Follows :
      (version ms : ℕ) (is_playing : Bool) (tag : Option ℕ) (e : Element) (s : SyncState)
      → is_other_version tag version ≡ false
      → Covers ms e
      → let msg : SyncMessage = record { file_version = tag; body = sync_state is_playing ms } in
        let (s', calls) = handle_sync_message version (some (look e)) msg s in
        Follows is_playing ms e (perform_all calls e)
        × (any is_play calls ≡ (is_playing && (look e).is_paused))
        × (s'.is_room_playing ≡ is_playing)
        × (s'.autoplay_blocked ≡ (is_playing && s.autoplay_blocked))
  unfolding handle_sync_message align
  sync_state-Follows version ms is_playing tag e s h c =
      let kept =
        remember version (record { file_version = tag; body = sync_state is_playing ms }) s in
      rw h (
        align-Follows is_playing ms e kept c,
        align-is_play is_playing ms (look e) kept,
        ground arith,
        ground arith,
      )
