-- ===== src/Examples/UiRuns.antt =====
-- Runs of toasts and confirmations (frontend/src/contexts/UiContext.tsx).
use syncwatch.Shared.{◌≡◌, refl, ◌++◌, true, none, List, [], ◌∷◌, arith}
use syncwatch.Session.{ToastOptions}
use syncwatch.Ui.{Ui, ConfirmConfig, on_unmount}
use syncwatch.Ui.Toasts.{ToastEvent, pushes, dismisses, IsTidy, run, run-IsTidy}
use syncwatch.Ui.Confirm.{
  ConfirmEvent, asks, answers, escapes, answered, IsShown, run as run_confirms, all_answered,
}

abbrev empty : Ui
empty = record {
  toasts = [];
  toast_counter = 0;
  toast_timers = [];
  confirm_request = none;
  confirm_resolver = none;
}

abbrev saved : ToastOptions
saved = record { title = "Saved"; description = none; tone = none; duration_ms = none }

abbrev five_toasts : List ToastEvent
five_toasts =
    pushes saved 11
    ∷ pushes saved 12
    ∷ pushes saved 13
    ∷ dismisses 1
    ∷ pushes saved 14
    ∷ pushes saved 15
    ∷ pushes saved 16
    ∷ []

empty-IsTidy : IsTidy empty
empty-IsTidy = record { few = omega arith; given = tt; distinct = tt; timed = refl }

run-IsTidy_example : IsTidy (run five_toasts empty)
run-IsTidy_example = run-IsTidy five_toasts empty empty-IsTidy

abbrev leave : ConfirmConfig
leave = record {
  eyebrow = none;
  title = "Leave?";
  description = "The room closes.";
  confirm_label = none;
  cancel_label = none;
  tone = none;
}

-- A third promise still waits when the provider goes away.
abbrev three_asks : List ConfirmEvent
three_asks = asks leave 1 ∷ asks leave 2 ∷ answers true ∷ escapes ∷ asks leave 3 ∷ []

all_answered_example :
    let (u', out) = run_confirms three_asks empty in
    let (gone, timers, last) = on_unmount u' in (answered 3 (out ++ last) ≡ 1) × IsShown u'
all_answered_example = all_answered 3 three_asks empty refl refl
