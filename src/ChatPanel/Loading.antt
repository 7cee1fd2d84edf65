-- ===== src/ChatPanel/Loading.antt =====
-- frontend/src/components/room/ChatPanel.tsx: older messages are asked for one page at a time.
use syncwatch.Shared.{
  ℕ, suc, ◌+◌, ◌≤◌, ◌≡◌, Bool, Option, none, some, is_some, List, [], ◌∷◌, ◌++◌, arith,
  if◌then◌else◌,
}
use syncwatch.Protocol.{ChatMessage}
use syncwatch.ChatPanel.{
  Scroll, Panel, Call, scroll_into_view, load_more, scroll_to, send, Run, on_messages,
  handle_scroll, on_frame, on_page_frame, handle_submit,
}

pub data Event : Type 0 where
  receives : List ChatMessage → Event
  scrolls : (can_load : Bool) → Scroll → Event
  frame : (height : Option ℕ) → Event
  submits : (accepted : Bool) → Event

abbrev pub step : Event → Panel → Run
step (receives messages) p = on_messages messages p
step (scrolls can_load e) p = handle_scroll can_load e p
step (frame height) p = on_page_frame height p
step (submits accepted) p = handle_submit accepted p

unfoldable pub run : List Event → Panel → Run
run [] p = (p, [])
run (e ∷ es) p = let (p', out) = step e p in let (p'', more) = run es p' in (p'', out ++ more)

abbrev pub loads : List Call → ℕ
loads [] = 0
loads (load_more ∷ out) = suc (loads out)
loads (_ ∷ out) = loads out

abbrev pub frames : List Event → ℕ
frames [] = 0
frames (frame height ∷ es) = suc (frames es)
frames (_ ∷ es) = frames es

abbrev pub is_loading : Panel → ℕ
is_loading p = if is_some p.loading then 1 else 0

loads-append : (xs ys : List Call) → loads (xs ++ ys) ≡ loads xs + loads ys
loads-append [] ys = omega arith
loads-append (load_more ∷ xs) ys = omega (arith, loads-append xs ys)
loads-append (scroll_into_view ∷ xs) ys = loads-append xs ys
loads-append (scroll_to top ∷ xs) ys = loads-append xs ys
loads-append (send content ∷ xs) ys = loads-append xs ys

on_frame-loads :
    (o : Option ℕ) (height : Option ℕ) (p : Panel)
    → loads (on_frame o height p).1 + (if is_some o then 1 else 0)
      ≤ (if is_some (on_frame o height p).0.loading then 1 else 0) + 1
unfolding on_frame
on_frame-loads none height p = ground arith
on_frame-loads (some before) none p = omega arith
on_frame-loads (some before) (some height) p = omega arith

step-loads :
    (e : Event) (p : Panel)
    → loads (step e p).1 + is_loading p ≤ is_loading (step e p).0 + frames (e ∷ [])
unfolding on_messages handle_scroll on_page_frame handle_submit
step-loads (receives messages) p = ground arith
step-loads (scrolls can_load e) p = ground arith
step-loads (frame height) p = on_frame-loads p.loading height p
step-loads (submits accepted) p = ground arith

frames-cons : (e : Event) (es : List Event) → frames (e ∷ es) ≡ frames (e ∷ []) + frames es
frames-cons (receives messages) es = omega arith
frames-cons (scrolls can_load e) es = omega arith
frames-cons (frame height) es = omega arith
frames-cons (submits accepted) es = omega arith

-- Whatever is scrolled, received and sent, at most one page of older messages is asked for at a time: the
-- pages asked for are at most those that came and the one that is awaited.
pub one_page :
    (es : List Event) (p : Panel)
    → loads (run es p).1 + is_loading p ≤ is_loading (run es p).0 + frames es
unfolding run
one_page [] p = omega arith
one_page (e ∷ es) p = omega (
  arith,
  step-loads e p,
  one_page es (step e p).0,
  frames-cons e es,
  loads-append (step e p).1 (run es (step e p).0).1,
)
