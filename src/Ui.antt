-- ===== src/Ui.antt =====
-- frontend/src/contexts/UiContext.tsx: toasts with their timers, and the confirmation dialog. A toast's id
-- `toast-n` is the number n. `toastTimersRef` is an association list in the order of a JavaScript map; the
-- timers that are cleared, and the promises of `confirm` that are answered, are the outputs.
pub mod Toasts
pub mod Confirm
pub mod View
use syncwatch.Shared.{
  ℕ, ◌+◌, String, Bool, true, false, not, Option, none, some, List, [], ◌∷◌, ◌++◌, map, leb, ◌==◌,
  or_else, is_some, filter, tail, length, if◌then◌else◌,
}
use syncwatch.Navigation.{Tone, primary}
use syncwatch.Session.{ToastOptions}

pub record ToastRecord : Type 0 where
  pub id : ℕ
  pub title : String
  pub description : Option String
  pub tone : Tone

-- `ConfirmDialogConfig`
pub record ConfirmConfig : Type 0 where
  pub eyebrow : Option String
  pub title : String
  pub description : String
  pub confirm_label : Option String
  pub cancel_label : Option String
  pub tone : Option Tone

-- A promise of `confirm` is named by a number, and `confirm_resolver` holds the one that waits.
pub record Ui : Type 0 where
  pub toasts : List ToastRecord
  pub toast_counter : ℕ
  pub toast_timers : List (ℕ × ℕ)
  pub confirm_request : Option ConfirmConfig
  pub confirm_resolver : Option ℕ

abbrev pub get_timer : ℕ → List (ℕ × ℕ) → Option ℕ
get_timer id [] = none
get_timer id ((k, t) ∷ ts) = if k == id then some t else get_timer id ts

abbrev pub delete_timer : ℕ → List (ℕ × ℕ) → List (ℕ × ℕ)
delete_timer id [] = []
delete_timer id ((k, t) ∷ ts) = if k == id then delete_timer id ts else (k, t) ∷ delete_timer id ts

-- `map.set(id, timer)`: a new key goes to the end.
abbrev pub set_timer : ℕ → ℕ → List (ℕ × ℕ) → List (ℕ × ℕ)
set_timer id timer [] = (id, timer) ∷ []
set_timer id timer ((k, t) ∷ ts) =
    if k == id then (id, timer) ∷ ts else (k, t) ∷ set_timer id timer ts

abbrev pub found : Option ℕ → List ℕ
found none = []
found (some t) = t ∷ []

abbrev pub is_toast : ℕ → ToastRecord → Bool
is_toast id t = t.id == id

-- Also what a toast's timer calls when it fires.
unfoldable pub dismiss_toast : ℕ → Ui → Ui × List ℕ
dismiss_toast id u = (
  record u {
    toast_timers = delete_timer id u.toast_timers;
    toasts = filter (λ t. not (is_toast id t)) u.toasts;
  },
  found (get_timer id u.toast_timers),
)

-- `current.length >= 4 ? current[0] : null`
abbrev pub overflow : List ToastRecord → Option ℕ
overflow [] = none
overflow (t ∷ ts) = if leb 4 (length (t ∷ ts)) then some t.id else none

clear_overflow : Option ℕ → List (ℕ × ℕ) → List (ℕ × ℕ)
clear_overflow none ts = ts
clear_overflow (some id) ts = delete_timer id ts

cleared_overflow : Option ℕ → List (ℕ × ℕ) → List ℕ
cleared_overflow none ts = []
cleared_overflow (some id) ts = found (get_timer id ts)

-- `timer` is the id that `window.setTimeout` returns for this toast.
unfoldable pub push_toast : ToastOptions → (timer : ℕ) → Ui → Ui × List ℕ
unfolding clear_overflow cleared_overflow
push_toast options timer u =
    let id = u.toast_counter in
    let over = overflow u.toasts in
    let kept = if leb 4 (length u.toasts) then tail u.toasts else u.toasts in
    let toast : ToastRecord = record {
      id = id;
      title = options.title;
      description = options.description;
      tone = or_else options.tone primary;
    } in
    (
      record u {
        toast_counter = u.toast_counter + 1;
        toasts = kept ++ toast ∷ [];
        toast_timers = set_timer id timer (clear_overflow over u.toast_timers);
      },
      cleared_overflow over u.toast_timers,
    )

abbrev pub answer : Option ℕ → Bool → List (ℕ × Bool)
answer none value = []
answer (some promise) value = (promise, value) ∷ []

-- The buttons of the dialog, and the Escape key with `false`.
unfoldable pub resolve_confirm : Bool → Ui → Ui × List (ℕ × Bool)
resolve_confirm value u =
    (record u { confirm_resolver = none; confirm_request = none }, answer u.confirm_resolver value)

-- `promise` is the new promise; one that still waits is answered by `false`.
unfoldable pub confirm : ConfirmConfig → (promise : ℕ) → Ui → Ui × List (ℕ × Bool)
confirm config promise u = (
  record u { confirm_resolver = some promise; confirm_request = some config },
  answer u.confirm_resolver false,
)

-- The effect on Escape, which listens only while the dialog is open.
unfoldable pub on_escape : Ui → Ui × List (ℕ × Bool)
unfolding resolve_confirm
on_escape u = if is_some u.confirm_request then resolve_confirm false u else (u, [])

-- The cleanup of the provider's first effect: the timers that it clears, and the promise that it answers.
unfoldable pub on_unmount : Ui → Ui × List ℕ × List (ℕ × Bool)
on_unmount u = (
  record u { toast_timers = [] },
  map (λ (entry : ℕ × ℕ). entry.1) u.toast_timers,
  answer u.confirm_resolver false,
)
