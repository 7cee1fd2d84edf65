-- ===== src/Widgets/Tabs.antt =====
-- frontend/src/components/ui/Segmented.tsx: the keys stay on the tabs.
use native.Mathlib.Nat.{mod-lt, mod-add-mod, add-mod_right, mod-eq_of_lt}
use syncwatch.Shared.{
  ap, ◌∙◌, ℕ, ◌+◌, ◌-◌, ◌%◌, ◌<◌, ◌≡◌, String, Bool, true, false, Option, none, some, arith, str_eq,
  if◌then◌else◌,
}
use syncwatch.Widgets.{on_key_down}

-- No tab, or one of them.
abbrev pub InRange : ℕ → Option ℕ → Type 0
InRange count none = Unit
InRange count (some next) = next < count

if-InRange :
    (count : ℕ) (test : Bool) (x y : Option ℕ)
    → InRange count x
    → InRange count y
    → InRange count (if test then x else y)
if-InRange count true x y h k = h
if-InRange count false x y h k = k

-- One to the right and one to the left.
right_left : (index count : ℕ) → index < count → ((index + 1) % count + count - 1) % count ≡ index
right_left index count h =
    let split : (index + 1) % count + count - 1 ≡ (index + 1) % count + (count - 1) =
      omega (arith, h) in
    let joined : index + 1 + (count - 1) ≡ index + count = omega (arith, h) in
    ap (λ n. n % count) split
    ∙ mod-add-mod (index + 1) count (count - 1)
    ∙ ap (λ n. n % count) joined
    ∙ add-mod_right index count
    ∙ mod-eq_of_lt h

-- Of a row of tabs with the focus on one of them, every key leads to a tab or is left alone, and the two
-- arrows undo each other.
pub on_key_down-InRange :
    (key : String) (index count : ℕ)
    → index < count
    → InRange count (on_key_down key index count)
      × (on_key_down "ArrowLeft" ((index + 1) % count) count ≡ some index)
unfolding on_key_down
on_key_down-InRange key index count h =
    let some_tab : 0 < count = omega (arith, h) in
    (
      if-InRange count (str_eq key "ArrowRight") _ _ (mod-lt (index + 1) some_tab) (
          if-InRange count (str_eq key "ArrowLeft") _ _ (mod-lt (index + count - 1) some_tab) (
            if-InRange count (str_eq key "Home") _ _ (omega (arith, h))
              (if-InRange count (str_eq key "End") _ _ (omega (arith, h)) tt))),
      ap some (right_left index count h),
    )
