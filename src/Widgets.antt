-- ===== src/Widgets.antt =====
-- frontend/src/components/ui/CodeChip.tsx and frontend/src/components/ui/Segmented.tsx: the chip that copies the
-- code of a room, and the keys of a row of tabs.
pub mod Tabs
pub mod View
use syncwatch.Shared.{
  ℕ, ◌+◌, ◌-◌, ◌%◌, String, Bool, true, false, Option, none, some, List, [], ◌∷◌, str_eq,
  if◌then◌else◌,
}

-- `timer` is whether the timer runs that takes the check mark away.
pub record Chip : Type 0 where
  pub done : Bool
  pub timer : Bool

pub data ChipCall : Type 0 where
  on_copy on_error : ChipCall

-- `copy` after the clipboard's answer.
unfoldable pub on_written : (written : Bool) → Chip → Chip × List ChipCall
on_written written chip =
    if written then (record { done = true; timer = true }, on_copy ∷ []) else (chip, on_error ∷ [])

unfoldable pub on_done_timeout : Chip → Chip
on_done_timeout chip = if chip.timer then record { done = false; timer = false } else chip

unfoldable pub on_chip_unmount : Chip → Chip
on_chip_unmount chip = record chip { timer = false }

-- The tab that a key selects and focuses, or none for another key; `count` is `items.length`, and
-- `index` the tab that has the focus.
unfoldable pub on_key_down : (key : String) (index count : ℕ) → Option ℕ
on_key_down key index count =
    if str_eq key "ArrowRight"
    then some ((index + 1) % count)
    else if str_eq key "ArrowLeft"
    then some ((index + count - 1) % count)
    else if str_eq key "Home"
    then some 0
    else if str_eq key "End"
    then some (count - 1)
    else none
