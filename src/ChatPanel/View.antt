-- ===== src/ChatPanel/View.antt =====
-- frontend/src/components/room/ChatPanel.tsx: what the panel shows. `time_of` is how the browser writes the time
-- of a date's text.
use syncwatch.Shared.{
  String, ◌≡◌, refl, Bool, Bool-cases, inl, inr, true, false, not, ◌&&◌, Option, none, some, List,
  [], ◌∷◌, map, str_eq, trim, is_some, if◌then◌else◌,
}
use syncwatch.Protocol.{ChatMessage}
use syncwatch.ChatPanel.{Panel, send, handle_submit}

-- The texts of the dictionary.
pub record Texts : Type 0 where
  pub you : String
  pub chat_load_error : String
  pub retry : String
  pub chat_empty : String

pub record ChatRow : Type 0 where
  pub key : String
  pub mine : Bool
  pub author : String
  pub time : String
  pub content : String

unfoldable pub chat_row :
    Texts → (time_of : String → String) → (current_user_id : String) → ChatMessage → ChatRow
chat_row t time_of current_user_id msg =
    let mine = str_eq msg.user_id current_user_id in
    record {
      key = msg.id;
      mine = mine;
      author = if mine then t.you else msg.username;
      time = time_of msg.created_at;
      content = msg.content;
    }

-- The log, or the text in its place.
pub data Log : Type 0 where
  hint : (text : String) → Log
  log : List ChatRow → Log

-- `error` is the line about a failed load, with the text of its button where there is one.
pub record ChatView : Type 0 where
  pub is_busy : Bool
  pub error : Option (String × Option String)
  pub log : Log
  pub send_disabled : Bool

abbrev pub is_empty : List ChatMessage → Bool
is_empty [] = true
is_empty (m ∷ ms) = false

-- `can_retry` is whether `onRetryLoad` is given.
unfoldable pub chat_view :
    Texts
    → (time_of : String → String) → (current_user_id : String) → (load_error can_retry : Bool)
    → List ChatMessage
    → Panel
    → ChatView
unfolding chat_row
chat_view t time_of current_user_id load_error can_retry messages p = record {
  is_busy = is_some p.loading;
  error =
      if load_error
      then some (t.chat_load_error, if can_retry then some t.retry else none)
      else none;
  log =
      if is_empty messages && not load_error
      then hint t.chat_empty
      else log (map (chat_row t time_of current_user_id) messages);
  send_disabled = str_eq (trim p.input) "";
}

-- Submitting asks for what the button of the panel allows: with it disabled nothing is sent, and else the
-- trimmed text, once; and after an accepted message the button is disabled.
pub send_disabled_lem :
    (t : Texts) (time_of : String → String) (me : String) (load_error can_retry : Bool)
    (messages : List ChatMessage) (p : Panel)
    → let (p', calls) = handle_submit true p in
      (calls ≡ (
        if (chat_view t time_of me load_error can_retry messages p).send_disabled
        then []
        else send (trim p.input) ∷ []))
      × ((chat_view t time_of me load_error can_retry messages p').send_disabled ≡ true)
unfolding chat_view handle_submit trim
send_disabled_lem t time_of me load_error can_retry messages p =
    elim (Bool-cases (str_eq (trim p.input) "")) [
      | inl nothing_ ↦ rw nothing_ (refl, nothing_)
      | inr text ↦ rw text (refl, refl)
    ]
