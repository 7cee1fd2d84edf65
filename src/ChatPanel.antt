-- ===== src/ChatPanel.antt =====
-- frontend/src/components/room/ChatPanel.tsx: the list of messages, which keeps its place while older ones
-- are loaded, and the field to write in. Heights are whole pixels.
pub mod Loading
pub mod View
use syncwatch.Shared.{
  ℕ, ◌+◌, ◌-◌, String, Bool, true, false, not, ◌&&◌, Option, none, some, List, [], ◌∷◌, ltb, str_eq,
  is_some, is_truthy, trim, if◌then◌else◌,
}
use syncwatch.Protocol.{ChatMessage}
use syncwatch.Store.{differs}

-- What the panel reads of the scrolled element.
pub record Scroll : Type 0 where
  pub height : ℕ
  pub top : ℕ
  pub client_height : ℕ

-- `loading` holds the height before the page that is loaded; `loadingMore` is whether there is one.
pub record Panel : Type 0 where
  pub input : String
  pub loading : Option ℕ
  pub last_message_id : Option String
  pub at_bottom : Bool

pub data Call : Type 0 where
  scroll_into_view load_more : Call
  scroll_to : (top : ℕ) → Call
  send : (content : String) → Call

abbrev pub Run : Type 0
Run = Panel × List Call

-- `messages[messages.length - 1]?.id`
abbrev pub latest_id : List ChatMessage → Option String
latest_id [] = none
latest_id (m ∷ []) = some m.id
latest_id (m ∷ m' ∷ ms) = latest_id (m' ∷ ms)

-- The effect on the messages.
unfoldable pub on_messages : List ChatMessage → Panel → Run
on_messages messages p =
    let latest = latest_id messages in
    (
      record p { last_message_id = latest },
      if is_truthy latest && differs latest p.last_message_id && p.at_bottom
          then scroll_into_view ∷ []
          else [],
    )

-- `handleScroll` up to its `await`; `can_load` is `hasMore && onLoadMore`.
unfoldable pub handle_scroll : (can_load : Bool) → Scroll → Panel → Run
handle_scroll can_load e p =
    let here = record p { at_bottom = ltb (e.height - e.top - e.client_height) 80 } in
    if ltb e.top 40 && can_load && not (is_some p.loading)
    then (record here { loading = some e.height }, load_more ∷ [])
    else (here, [])

-- The frame after the page has come, or has failed to: the element, if it is there, has a new height.
on_frame : Option ℕ → Option ℕ → Panel → Run
on_frame none height p = (p, [])
on_frame (some before) none p = (record p { loading = none }, [])
on_frame (some before) (some height) p =
    (record p { loading = none }, scroll_to (height - before) ∷ [])

unfoldable pub on_page_frame : (height : Option ℕ) → Panel → Run
unfolding on_frame
on_page_frame height p = on_frame p.loading height p

-- The field to write in.
unfoldable pub on_input : String → Panel → Panel
on_input value p = record p { input = value }

-- `handleSubmit`; `accepted` is the answer of `onSend`.
unfoldable pub handle_submit : (accepted : Bool) → Panel → Run
handle_submit accepted p =
    let content = trim p.input in
    if str_eq content ""
    then (p, [])
    else (if accepted then record p { input = "" } else p, send content ∷ [])
