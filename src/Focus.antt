-- ===== src/Focus.antt =====
-- frontend/src/components/ui/ConfirmDialog.tsx and frontend/src/components/auth/AuthModal.tsx: the keys of an
-- open dialog, which the two handle alike. An element is a number; `focusable` lists those that the
-- dialog's query finds, with whether they are disabled.
pub mod Trap
use syncwatch.Shared.{
  ℕ, String, Bool, true, false, not, Option, none, some, List, [], ◌∷◌, filter, is_num, str_eq,
  if◌then◌else◌,
}

pub record Element : Type 0 where
  pub id : ℕ
  pub disabled : Bool

abbrev pub enabled : List Element → List Element
enabled es = filter (λ e. not e.disabled) es

abbrev pub last_of : Element → List Element → Element
last_of e [] = e
last_of e (x ∷ es) = last_of x es

-- What a key does: the dialog is closed, an element is focused in place of the browser's own move, or the
-- key is left to the browser.
pub data Effect : Type 0 where
  close : Effect
  focus : (id : ℕ) → Effect
  leave_to_browser : Effect

on_tab : (shift : Bool) (active : Option ℕ) → List Element → Effect
on_tab shift active [] = leave_to_browser
on_tab true active (first ∷ es) =
    if is_num active first.id then focus (last_of first es).id else leave_to_browser
on_tab false active (first ∷ es) =
    if is_num active (last_of first es).id then focus first.id else leave_to_browser

-- `handleKeyDown`
unfoldable pub handle_key_down :
    (key : String) (shift : Bool) (active : Option ℕ) → List Element → Effect
unfolding on_tab
handle_key_down key shift active focusable =
    if str_eq key "Escape"
    then close
    else if str_eq key "Tab"
    then on_tab shift active (enabled focusable)
    else leave_to_browser
