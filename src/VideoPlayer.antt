-- ===== src/VideoPlayer.antt =====
-- frontend/src/components/room/VideoPlayer.tsx: clicks, double clicks and taps on the video, and what its
-- errors are called.
pub mod Clicks
use syncwatch.Shared.{
  ℕ, String, Bool, true, false, Option, none, some, List, [], ◌∷◌, is_num, str_eq, if◌then◌else◌,
}

-- `clickTimerRef`, as whether a timer runs, and `lastPointerTypeRef`.
pub record Pointer : Type 0 where
  pub click_timer : Bool
  pub last_pointer_type : String

pub data Call : Type 0 where
  on_touch_tap on_click_toggle on_toggle_fullscreen : Call

abbrev pub Run : Type 0
Run = Pointer × List Call

unfoldable pub init_pointer : Pointer
init_pointer = record { click_timer = false; last_pointer_type = "mouse" }

-- `onPointerDown`; an empty type is a mouse.
unfoldable pub on_pointer_down : String → Pointer → Run
on_pointer_down kind p =
    (record p { last_pointer_type = if str_eq kind "" then "mouse" else kind }, [])

unfoldable pub handle_click : Pointer → Run
handle_click p = (record p { click_timer = true }, [])

-- The timer of a click, 220 ms after the last one.
unfoldable pub on_click_timeout : Pointer → Run
on_click_timeout p =
    if p.click_timer
    then (
      record p { click_timer = false },
      (if str_eq p.last_pointer_type "touch" then on_touch_tap else on_click_toggle) ∷ [],
    )
    else (p, [])

unfoldable pub handle_double_click : Pointer → Run
handle_double_click p = (record p { click_timer = false }, on_toggle_fullscreen ∷ [])

unfoldable pub on_player_unmount : Pointer → Run
on_player_unmount p = (record p { click_timer = false }, [])

-- `MediaError.MEDIA_ERR_SRC_NOT_SUPPORTED`
abbrev pub src_not_supported : ℕ
src_not_supported = 4

-- `handleError`, with the code of the element's error if it has one.
abbrev pub error_code : Option ℕ → String
error_code code = if is_num code src_not_supported then "codec_unsupported" else "media_error"
