-- ===== src/VideoPlayer/Clicks.antt =====
-- frontend/src/components/room/VideoPlayer.tsx: what clicks, double clicks and taps come to.
use syncwatch.Shared.{
  ℕ, suc, ◌+◌, ◌≤◌, String, ◌≡◌, refl, Bool, Bool-cases, inl, inr, true, false, List, [], ◌∷◌, ◌++◌,
  all, arith, eq_iff, str_eq, if◌then◌else◌,
}
use syncwatch.VideoPlayer.{
  Pointer, Call, on_touch_tap, on_click_toggle, on_toggle_fullscreen, Run, on_pointer_down,
  handle_click, on_click_timeout, handle_double_click, on_player_unmount,
}

pub data Event : Type 0 where
  presses : (kind : String) → Event
  clicks times_out double_clicks unmounts : Event

abbrev pub step : Event → Pointer → Run
step (presses kind) p = on_pointer_down kind p
step clicks p = handle_click p
step times_out p = on_click_timeout p
step double_clicks p = handle_double_click p
step unmounts p = on_player_unmount p

unfoldable pub run : List Event → Pointer → Run
run [] p = (p, [])
run (e ∷ es) p = let (p', out) = step e p in let (p'', more) = run es p' in (p'', out ++ more)

-- Plays or pauses for the room, or shows the control bar.
abbrev pub acts : List Call → ℕ
acts [] = 0
acts (on_toggle_fullscreen ∷ out) = acts out
acts (_ ∷ out) = suc (acts out)

abbrev pub toggles : List Call → ℕ
toggles [] = 0
toggles (on_click_toggle ∷ out) = suc (toggles out)
toggles (_ ∷ out) = toggles out

abbrev pub clicks_in : List Event → ℕ
clicks_in [] = 0
clicks_in (clicks ∷ es) = suc (clicks_in es)
clicks_in (_ ∷ es) = clicks_in es

-- No pointer but a finger is used.
abbrev pub is_touch : Event → Bool
is_touch (presses kind) = str_eq kind "touch"
is_touch _ = true

-- The waiting click, if there is one.
abbrev pub waits : Pointer → ℕ
waits p = if p.click_timer then 1 else 0

step_lem :
    (e : Event) (p : Pointer)
    → is_touch e ≡ true
    → p.last_pointer_type ≡ "touch"
    → ((step e p).0.last_pointer_type ≡ "touch")
      × (toggles (step e p).1 ≡ 0)
      × (acts (step e p).1 + waits (step e p).0 ≤ clicks_in (e ∷ []) + waits p)
unfolding on_pointer_down handle_click on_click_timeout handle_double_click on_player_unmount
step_lem (presses kind) p t l =
    let touch = (eq_iff kind "touch").0 t in rw touch (refl, refl, omega arith)
step_lem clicks p t l = (l, refl, ground arith)
step_lem double_clicks p t l = (l, refl, ground arith)
step_lem unmounts p t l = (l, refl, ground arith)
step_lem times_out p t l = elim (Bool-cases p.click_timer) [
  | inl runs ↦ rw runs (rw l (refl, refl, omega arith))
  | inr still ↦ rw still (l, refl, omega arith)
]

acts-append : (xs ys : List Call) → acts (xs ++ ys) ≡ acts xs + acts ys
acts-append [] ys = omega arith
acts-append (on_toggle_fullscreen ∷ xs) ys = acts-append xs ys
acts-append (on_touch_tap ∷ xs) ys = omega (arith, acts-append xs ys)
acts-append (on_click_toggle ∷ xs) ys = omega (arith, acts-append xs ys)

toggles-append : (xs ys : List Call) → toggles (xs ++ ys) ≡ toggles xs + toggles ys
toggles-append [] ys = omega arith
toggles-append (on_toggle_fullscreen ∷ xs) ys = toggles-append xs ys
toggles-append (on_touch_tap ∷ xs) ys = toggles-append xs ys
toggles-append (on_click_toggle ∷ xs) ys = omega (arith, toggles-append xs ys)

clicks_in-cons :
    (e : Event) (es : List Event) → clicks_in (e ∷ es) ≡ clicks_in (e ∷ []) + clicks_in es
clicks_in-cons (presses kind) es = omega arith
clicks_in-cons clicks es = omega arith
clicks_in-cons times_out es = omega arith
clicks_in-cons double_clicks es = omega arith
clicks_in-cons unmounts es = omega arith

-- With fingers alone, whatever is tapped, nothing plays or pauses for the room, and the taps that show or
-- hide the control bar are no more than the clicks and the one that waited.
pub touch_never_pauses :
    (es : List Event) (p : Pointer)
    → all is_touch es ≡ true
    → p.last_pointer_type ≡ "touch"
    → (toggles (run es p).1 ≡ 0) × (acts (run es p).1 + waits (run es p).0 ≤ clicks_in es + waits p)
unfolding run
touch_never_pauses [] p t l = (refl, omega arith)
touch_never_pauses (e ∷ es) p t l =
    let (stays, none_here, few) = step_lem e p (ground arith) l in
    let (none_later, few_later) = touch_never_pauses es (step e p).0 (ground arith) stays in
    (
      omega (arith, none_here, none_later, toggles-append (step e p).1 (run es (step e p).0).1),
      omega (
        arith,
        few,
        few_later,
        clicks_in-cons e es,
        acts-append (step e p).1 (run es (step e p).0).1,
      ),
    )

-- A double click, of which the browser makes two clicks before it, changes to or from fullscreen and
-- leaves playback and the control bar alone, whatever waited before.
double_click_only_fullscreen :
    (p : Pointer)
    → run (clicks ∷ clicks ∷ double_clicks ∷ []) p
      ≡ (record p { click_timer = false }, on_toggle_fullscreen ∷ [])
unfolding run handle_click handle_double_click
double_click_only_fullscreen p = refl
