-- ===== src/Focus/Trap.antt =====
-- frontend/src/components/ui/ConfirmDialog.tsx, frontend/src/components/auth/AuthModal.tsx: Tab stays inside.
use syncwatch.Shared.{
  ℕ, ◌≡◌, refl, Bool, true, false, some, List, [], ◌∷◌, any, arith, ◌==◌, if◌then◌else◌,
}
use syncwatch.Focus.{
  Element, enabled, last_of, Effect, close, focus, leave_to_browser, on_tab, handle_key_down,
}

-- The element stands among these.
abbrev pub Has : List Element → ℕ → Type 0
Has es id = any (λ e. e.id == id) es ≡ true

-- Where the focus is after Tab: `next` is the browser's own move.
abbrev pub moved : (next : Bool → ℕ → ℕ) (shift : Bool) → ℕ → Effect → ℕ
moved next shift active close = active
moved next shift active (focus id) = id
moved next shift active leave_to_browser = next shift active

-- The browser moves from an element to a neighbour in the dialog, but for the ends.
abbrev pub MovesInside : (next : Bool → ℕ → ℕ) → List Element → Type 0
MovesInside next [] = Unit
MovesInside next (first ∷ es) =
    ((active : ℕ)
      → Has (first ∷ es) active
      → active == first.id ≡ false
      → Has (first ∷ es) (next true active))
    × ((active : ℕ)
        → Has (first ∷ es) active
        → active == (last_of first es).id ≡ false
        → Has (first ∷ es) (next false active))

Has-last_of : (e : Element) (es : List Element) → Has (e ∷ es) (last_of e es).id
Has-last_of e [] = ground arith
Has-last_of e (x ∷ es) = ground (arith, Has-last_of x es)

Has-first : (e : Element) (es : List Element) → Has (e ∷ es) e.id
Has-first e es = ground arith

-- At the end of the dialog the focus goes to the other end, and elsewhere the browser moves it.
pick-Has :
    (next : Bool → ℕ → ℕ) (shift : Bool) (active : ℕ) (es : List Element) (test : Bool) (end : ℕ)
    → Has es end
    → (test ≡ false → Has es (next shift active))
    → Has es (moved next shift active (if test then focus end else leave_to_browser))
pick-Has next shift active es true end h k = h
pick-Has next shift active es false end h k = k refl

on_tab-Has :
    (next : Bool → ℕ → ℕ) (shift : Bool) (active : ℕ) (es : List Element)
    → MovesInside next es
    → Has es active
    → Has es (moved next shift active (on_tab shift (some active) es))
unfolding on_tab
on_tab-Has next shift active [] m h = absurd (ground arith)
on_tab-Has next true active (first ∷ es) m h =
    pick-Has next true active (first ∷ es) (active == first.id) (last_of first es).id
      (Has-last_of first es) (m.0 active h)
on_tab-Has next false active (first ∷ es) m h =
    pick-Has next false active (first ∷ es) (active == (last_of first es).id) first.id
      (Has-first first es) (m.1 active h)

-- Where the browser moves between neighbours of the dialog, but for its ends: from an enabled element of an
-- open dialog, Tab and Shift-Tab lead to an enabled element of the dialog.
pub tab_stays_inside :
    (next : Bool → ℕ → ℕ) (shift : Bool) (active : ℕ) (focusable : List Element)
    → MovesInside next (enabled focusable)
    → Has (enabled focusable) active
    → Has
        (enabled focusable)
        (moved next shift active (handle_key_down "Tab" shift (some active) focusable))
unfolding handle_key_down
tab_stays_inside next shift active focusable m h =
    on_tab-Has next shift active (enabled focusable) m h
