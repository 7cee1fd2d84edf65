-- ===== src/PlaybackControls/Seeking.antt =====
-- frontend/src/components/room/PlaybackControls.tsx: when the element is moved, and where to.
use syncwatch.Shared.{
  ◌∙◌, ◌&&◌, any, ℕ, ◌≡◌, refl, ap, Bool, true, false, String, some, List, [], ◌∷◌, arith,
  round_thousandth, str_eq, if◌then◌else◌,
}
use syncwatch.PlaybackControls.{
  Element, Controls, Call, Run, on_seek, on_play, on_pause, sync_state, toggle_play, toggle_element,
  skip_by, skip_element, handle_keydown, handle_seek_start, handle_seek_change, handle_seek_end,
  position, sync_with, on_blocked_control_attempt,
}

-- What goes to the room.
abbrev pub is_sent : Call → Bool
is_sent (on_play ms) = true
is_sent (on_pause ms) = true
is_sent (on_seek ms) = true
is_sent _ = false

-- The scrubber is dragged over these positions.
unfoldable pub drag : List ℕ → Controls → Controls
drag [] c = c
drag (value ∷ values) c = drag values (handle_seek_change value c)

-- The last of the positions, or the first one where there is none.
abbrev pub last_of : ℕ → List ℕ → ℕ
last_of before [] = before
last_of before (value ∷ values) = last_of value values

drag_lem :
    (values : List ℕ) (c : Controls)
    → c.seek_interaction_active ≡ true
    → ((drag values c).seek_value_us ≡ last_of c.seek_value_us values)
      × ((drag values c).element ≡ c.element)
      × ((drag values c).seek_interaction_active ≡ true)
unfolding drag handle_seek_change
drag_lem [] c a = (refl, refl, a)
drag_lem (value ∷ values) c a = drag_lem values (handle_seek_change value c) refl

handle_seek_end-active :
    (can_control accepted : Bool) (v : Element) (c : Controls)
    → c.seek_interaction_active ≡ true
    → c.element ≡ some v
    → let (c', calls) = handle_seek_end can_control accepted c in
      (c'.element
        ≡ some (record v {
          current_us = if can_control && accepted then c.seek_value_us else v.current_us;
        }))
      × (calls
          ≡ (if can_control
              then on_seek (round_thousandth c.seek_value_us)
              else on_blocked_control_attempt)
            ∷ [])
      × (c'.is_seeking ≡ false)
      × ((sync_state c').current_us ≡ position c'.element 0)
unfolding handle_seek_end sync_state sync_with
handle_seek_end-active false accepted v c a e = rw a (rw e (refl, refl, refl, refl))
handle_seek_end-active true true v c a e = rw a (rw e (refl, refl, refl, refl))
handle_seek_end-active true false v c a e = rw a (rw e (refl, refl, refl, refl))

-- Where there is an element: a drag of the scrubber, from its start over any positions to its end, tells
-- the room the last position, in milliseconds, or where the element was if there is none, or without
-- control reports the attempt instead; it moves the element there just if the user has control and the
-- socket took the command, and else leaves it where it was; and at the next event of the element the
-- scrubber shows the element's position again.
pub drag_gesture :
    (values : List ℕ) (can_control accepted : Bool) (v : Element) (c : Controls)
    → c.element ≡ some v
    → let target = last_of v.current_us values in
      let (c', calls) = handle_seek_end can_control accepted (drag values (handle_seek_start c)) in
      (c'.element
        ≡ some (record v { current_us = if can_control && accepted then target else v.current_us }))
      × (calls
          ≡ (if can_control then on_seek (round_thousandth target) else on_blocked_control_attempt)
            ∷ [])
      × (c'.is_seeking ≡ false)
      × ((sync_state c').current_us ≡ position c'.element 0)
unfolding handle_seek_start
drag_gesture values can_control accepted v c e =
    let started = handle_seek_start c in
    let (value, kept, active) = drag_lem values started refl in
    let target = value ∙ ap (λ o. last_of (position o c.current_us) values) e in
    let (moved, called, done, shown) =
      handle_seek_end-active can_control accepted v (drag values started) active (kept ∙ e) in
    (
      moved
          ∙ ap
              (λ us.
                some
                  (record v { current_us = if can_control && accepted then us else v.current_us }))
              target,
      called
          ∙ ap
              (λ us.
                (if can_control then on_seek (round_thousandth us) else on_blocked_control_attempt)
                ∷ [])
              target,
      done,
      shown,
    )

-- The controls stay as they are, and without control nothing is sent.
abbrev pub IsRefused : Bool → Controls → Run → Type 0
IsRefused can_control c run = (run.0 ≡ c) × (can_control ≡ false → any is_sent run.1 ≡ false)

if-IsRefused :
    (can_control : Bool) (c : Controls) (test : Bool) (x y : Run)
    → IsRefused can_control c x
    → IsRefused can_control c y
    → IsRefused can_control c (if test then x else y)
if-IsRefused can_control c true x y h k = h
if-IsRefused can_control c false x y h k = k

toggle_play-IsRefused :
    (can_control accepted : Bool) (c : Controls)
    → (can_control && accepted) ≡ false
    → IsRefused can_control c (toggle_play can_control accepted c)
unfolding toggle_play toggle_element
toggle_play-IsRefused can_control accepted c n = (ground arith, λ k. ground arith)

skip_by-IsRefused :
    (forward can_control accepted : Bool) (c : Controls)
    → (can_control && accepted) ≡ false
    → IsRefused can_control c (skip_by forward can_control accepted c)
unfolding skip_by skip_element
skip_by-IsRefused forward can_control accepted c n = (ground arith, λ k. ground arith)

-- Whatever key is pressed, nothing plays, stops or moves on this client unless the user has control and
-- the socket took the command; and without control nothing is sent to the room.
pub key_needs_room :
    (code : String) (can_control accepted : Bool) (c : Controls)
    → (can_control && accepted) ≡ false
    → IsRefused can_control c (handle_keydown code can_control accepted c)
unfolding handle_keydown
key_needs_room code can_control accepted c n =
    if-IsRefused can_control c (str_eq code "Space") _ _
      (toggle_play-IsRefused can_control accepted c n)
      (if-IsRefused can_control c (str_eq code "ArrowLeft") _ _
        (skip_by-IsRefused false can_control accepted c n)
        (if-IsRefused can_control c (str_eq code "ArrowRight") _ _
          (skip_by-IsRefused true can_control accepted c n) (refl, λ k. ground arith)))
