-- ===== src/PlaybackControls/Scrubber.antt =====
-- frontend/src/components/room/PlaybackControls.tsx: the keys on the scrubber, and what the controls show.
use syncwatch.Shared.{
  ◌&&◌, any, ℕ, ◌≡◌, refl, Bool, true, false, String, some, List, [], ◌∷◌, round_thousandth, str_eq,
  if◌then◌else◌,
}
use syncwatch.PlaybackControls.{
  Element, Controls, Run, on_seek, on_blocked_control_attempt, sync_state, handle_seek_start,
  handle_seek_end, position,
}
use syncwatch.PlaybackControls.Seeking.{drag, last_of, drag_gesture}

-- `SCRUBBER_KEYS`
abbrev pub scrubber_keys : List String
scrubber_keys =
    "ArrowLeft" ∷ "ArrowRight" ∷ "ArrowUp" ∷ "ArrowDown" ∷ "Home" ∷ "End" ∷ "PageUp" ∷ "PageDown"
    ∷ []

abbrev pub is_scrubber_key : String → Bool
is_scrubber_key key = any (str_eq key) scrubber_keys

unfoldable pub handle_seek_key_down : (key : String) → Controls → Controls
unfolding handle_seek_start
handle_seek_key_down key c = if is_scrubber_key key then handle_seek_start c else c

unfoldable pub handle_seek_key_up : (key : String) → (can_control accepted : Bool) → Controls → Run
unfolding handle_seek_end
handle_seek_key_up key can_control accepted c =
    if is_scrubber_key key then handle_seek_end can_control accepted c else (c, [])

-- Where there is an element: a key of the scrubber that is held, over any positions that the slider takes, and
-- let go tells the room the last position, once, or without control reports the attempt instead; it moves
-- the element there just with control and an accepted command; and the scrubber then shows the element's
-- position again.
pub key_gesture :
    (key : String) (values : List ℕ) (can_control accepted : Bool) (v : Element) (c : Controls)
    → is_scrubber_key key ≡ true
    → c.element ≡ some v
    → let target = last_of v.current_us values in
      let (c', calls) =
        handle_seek_key_up key can_control accepted (drag values (handle_seek_key_down key c)) in
      (c'.element
        ≡ some (record v { current_us = if can_control && accepted then target else v.current_us }))
      × (calls
          ≡ (if can_control then on_seek (round_thousandth target) else on_blocked_control_attempt)
            ∷ [])
      × (c'.is_seeking ≡ false)
      × ((sync_state c').current_us ≡ position c'.element 0)
unfolding handle_seek_key_down handle_seek_key_up handle_seek_start handle_seek_end
key_gesture key values can_control accepted v c on e =
    rw on (drag_gesture values can_control accepted v c e)

-- Another key leaves the scrubber alone.
pub other_key :
    (key : String) (can_control accepted : Bool) (c : Controls)
    → is_scrubber_key key ≡ false
    → handle_seek_key_up key can_control accepted (handle_seek_key_down key c) ≡ (c, [])
unfolding handle_seek_key_down handle_seek_key_up
other_key key can_control accepted c off = rw off refl
