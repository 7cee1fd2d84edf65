-- ===== src/LoadRoom/Race.antt =====
-- frontend/src/hooks/useLoadRoom.ts and the retry of frontend/src/pages/RoomPage.tsx: the first page of the chat,
-- against the messages that come over the socket.
use syncwatch.Shared.{
  String, ◌≡◌, true, ◌||◌, inl, inr, Bool-cases, some, List, [], ◌∷◌, arith, ◌==◌, eq_iff, any,
  is_truthy, subst,
}
use syncwatch.Protocol.{ChatMessage}
use syncwatch.Store.{
  RoomStore, has_id, add_message, set_messages, set_chat_cursor, set_chat_load_error,
}
use syncwatch.Store.Messages.{any-append, add_all}
use syncwatch.RoomPage.{ChatHistory, handle_retry_chat_load, retry_answer}
use syncwatch.LoadRoom.{Loader, answer_history, on_history}

-- Messages that come over the socket while the page loads.
abbrev pub hear : List ChatMessage → Loader → Loader
hear ms l = record l { store = add_all ms l.store }

any-listed :
    (id : String) (m : ChatMessage) (ms : List ChatMessage)
    → any (has_id m.id) ms ≡ true
    → has_id id m ≡ true
    → any (has_id id) ms ≡ true
any-listed id m ms old this =
    subst (λ i. any (has_id i) ms ≡ true) (ground (arith, eq_iff m.id id)) old

any-add_message :
    (id : String) (m : ChatMessage) (s : RoomStore)
    → any (has_id id) (add_message m s).messages ≡ (any (has_id id) s.messages || has_id id m)
unfolding add_message
any-add_message id m s = elim (Bool-cases (any (has_id m.id) s.messages)) [
  | inl old ↦ rw old (ground (arith, any-listed id m s.messages old))
  | inr new ↦ rw new (ground (arith, any-append (has_id id) s.messages (m ∷ [])))
]

any-add_all :
    (id : String) (ms : List ChatMessage) (s : RoomStore)
    → any (has_id id) (add_all ms s).messages ≡ (any (has_id id) s.messages || any (has_id id) ms)
unfolding add_all
any-add_all id [] s = ground arith
any-add_all id (m ∷ ms) s =
    ground (arith, any-add_all id ms (add_message m s), any-add_message id m s)

-- Whatever messages have come over the socket before the first page of the chat is there: once it is, and
-- after any further messages, the ids in the list are those of the page and of the further messages, so
-- an earlier message that the page lacks has gone. The retry of a load that failed, in a room with a name,
-- replaces the list in the same way.
pub first_page_replaces :
    (id room_id : String) (early late : List ChatMessage) (page : ChatHistory) (l : Loader)
    → is_truthy (some room_id) ≡ true
    → let loaded = answer_history l.latest (some page) (hear early l) in
      let retried = handle_retry_chat_load room_id (some page) (hear early l).store in
      let listed = any (has_id id) page.messages || any (has_id id) late in
      (any (has_id id) (hear late loaded).store.messages ≡ listed)
      × (any (has_id id) (add_all late retried).messages ≡ listed)
unfolding answer_history on_history handle_retry_chat_load retry_answer set_messages set_chat_cursor
    set_chat_load_error
first_page_replaces id room_id early late page l r =
    let same : (l.latest == l.latest) ≡ true = ground arith in
    (
      rw same (any-add_all id late (on_history (some page) (hear early l).store)),
      rw r (any-add_all id late (retry_answer (some page) (hear early l).store)),
    )
