-- ===== src/Ui/View.antt =====
-- frontend/src/contexts/UiContext.tsx with frontend/src/components/ui/ToastViewport.tsx and
-- frontend/src/components/ui/ConfirmDialog.tsx: the toasts and the dialog that are shown.
use syncwatch.Shared.{
  ℕ, String, ◌≡◌, refl, ap, Bool, Bool-cases, inl, inr, true, false, not, Option, none, some, List,
  [], ◌∷◌, map, filter, ◌==◌, or_else, is_truthy, if◌then◌else◌,
}
use syncwatch.Navigation.{Tone, primary, warning, danger}
use syncwatch.Ui.{ToastRecord, ConfirmConfig, Ui, is_toast, dismiss_toast, resolve_confirm, answer}

abbrev pub is_warning : Tone → Bool
is_warning warning = true
is_warning danger = true
is_warning _ = false

abbrev pub is_danger : Tone → Bool
is_danger danger = true
is_danger _ = false

-- A text that is shown where there is one.
abbrev pub shown_text : Option String → Option String
shown_text text = if is_truthy text then text else none

-- A button of the viewport; `warns` chooses its icon.
pub record ToastView : Type 0 where
  pub id : ℕ
  pub warns : Bool
  pub title : String
  pub description : Option String

abbrev pub toast_view : ToastRecord → ToastView
toast_view t = record {
  id = t.id;
  warns = is_warning t.tone;
  title = t.title;
  description = shown_text t.description;
}

-- `ToastViewport`, which is not there without a toast
unfoldable pub toast_viewport : List ToastRecord → Option (List ToastView)
toast_viewport [] = none
toast_viewport (t ∷ ts) = some (map toast_view (t ∷ ts))

pub record Dialog : Type 0 where
  pub eyebrow : Option String
  pub title : String
  pub description : String
  pub cancel_label : String
  pub confirm_label : String
  -- the button of the answer is dark, not green
  pub is_secondary : Bool

-- `ConfirmDialog` with its defaults, of a request that is open
unfoldable pub confirm_dialog : Option ConfirmConfig → Option Dialog
confirm_dialog none = none
confirm_dialog (some c) = some (record {
  eyebrow = shown_text c.eyebrow;
  title = c.title;
  description = c.description;
  cancel_label = or_else c.cancel_label "Cancel";
  confirm_label = or_else c.confirm_label "Confirm";
  is_secondary = is_danger (or_else c.tone primary);
})

-- The mouse is pressed on the backdrop itself, or on the dialog.
unfoldable pub on_backdrop : (on_itself : Bool) → Ui → Ui × List (ℕ × Bool)
unfolding resolve_confirm
on_backdrop on_itself u = if on_itself then resolve_confirm false u else (u, [])

abbrev pub toasts_shown : Option (List ToastView) → List ToastView
toasts_shown none = []
toasts_shown (some toasts) = toasts

toasts_shown-map : (ts : List ToastRecord) → toasts_shown (toast_viewport ts) ≡ map toast_view ts
unfolding toast_viewport
toasts_shown-map [] = refl
toasts_shown-map (t ∷ ts) = refl

map-dismissed :
    (id : ℕ) (ts : List ToastRecord)
    → map toast_view (filter (λ t. not (is_toast id t)) ts)
      ≡ filter (λ t. not (t.id == id)) (map toast_view ts)
map-dismissed id [] = refl
map-dismissed id (t ∷ ts) = elim (Bool-cases (t.id == id)) [
  | inl this ↦ rw this (map-dismissed id ts)
  | inr other ↦ rw other (ap (◌∷◌ (toast_view t)) (map-dismissed id ts))
]

-- A click on a toast takes it away, and no other one, and keeps the dialog; an answer to the dialog takes it
-- away, answers the promise that waits with it and keeps the toasts; and so does a press on the backdrop,
-- with a no.
pub presses :
    (id : ℕ) (value : Bool) (u : Ui)
    → let (dismissed, timers) = dismiss_toast id u in
      let (resolved, answers) = resolve_confirm value u in
      (toasts_shown (toast_viewport dismissed.toasts)
        ≡ filter (λ t. not (t.id == id)) (toasts_shown (toast_viewport u.toasts)))
      × (confirm_dialog dismissed.confirm_request ≡ confirm_dialog u.confirm_request)
      × (confirm_dialog resolved.confirm_request ≡ none)
      × (answers ≡ answer u.confirm_resolver value)
      × (toast_viewport resolved.toasts ≡ toast_viewport u.toasts)
      × (on_backdrop true u ≡ resolve_confirm false u)
unfolding dismiss_toast resolve_confirm confirm_dialog on_backdrop
presses id value u = (
  rw (toasts_shown-map u.toasts) (
      rw (toasts_shown-map (filter (λ t. not (is_toast id t)) u.toasts))
        (map-dismissed id u.toasts)),
  refl,
  refl,
  refl,
  refl,
  refl,
)
