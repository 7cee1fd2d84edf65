-- ===== src/RoomPage/Chat.antt =====
-- frontend/src/pages/RoomPage.tsx: the pages of chat history.
use syncwatch.Shared.{
  String, ◌≡◌, ◌≢◌, refl, Bool, true, false, not, some, List, [], ◌∷◌, ◌++◌, any, All, Distinct,
  filter, arith, eq_iff, eq_refl, subst, sym, Bool-cases, inl, inr, is_truthy,
}
use syncwatch.Protocol.{ChatMessage}
use syncwatch.Store.{RoomStore, has_id, set_messages, set_chat_cursor, set_chat_load_error}
use syncwatch.Store.Messages.{ids, Has, any-append}
use syncwatch.RoomPage.{ChatHistory, with_older, load_answer, handle_load_more_chat}

All-ids-filter :
    (id : String) (p : ChatMessage → Bool) (ms : List ChatMessage)
    → All (λ y. y ≢ id) (ids ms)
    → All (λ y. y ≢ id) (ids (filter p ms))
All-ids-filter id p [] h = tt
All-ids-filter id p (x ∷ ms) h = elim (Bool-cases (p x)) [
  | inl e ↦ rw e (h.0, All-ids-filter id p ms h.1)
  | inr e ↦ rw e (All-ids-filter id p ms h.1)
]

All-ids-new :
    (id : String) (ms : List ChatMessage) → any (has_id id) ms ≡ false → All (λ y. y ≢ id) (ids ms)
All-ids-new id [] h = tt
All-ids-new id (x ∷ ms) h = (ground (arith, eq_iff x.id id), All-ids-new id ms (ground arith))

All-ids-append :
    (id : String) (xs ys : List ChatMessage)
    → All (λ y. y ≢ id) (ids xs)
    → All (λ y. y ≢ id) (ids ys)
    → All (λ y. y ≢ id) (ids (xs ++ ys))
All-ids-append id [] ys h k = k
All-ids-append id (x ∷ xs) ys h k = (h.0, All-ids-append id xs ys h.1 k)

Distinct-with_older :
    (page current : List ChatMessage)
    → Distinct (ids page)
    → Distinct (ids current)
    → Distinct (ids (with_older page current))
Distinct-with_older [] current d d' = d'
Distinct-with_older (x ∷ page) current d d' = elim (Bool-cases (any (has_id x.id) current)) [
  | inl old ↦ rw old (Distinct-with_older page current d.1 d')
  | inr new ↦ rw new (
    All-ids-append x.id (filter (λ m. not (any (has_id m.id) current)) page) current
        (All-ids-filter x.id (λ m. not (any (has_id m.id) current)) page d.0)
        (All-ids-new x.id current new),
    Distinct-with_older page current d.1 d',
  )
]

Has-weaken :
    (x : ChatMessage) (ms page : List ChatMessage) → All (Has ms) page → All (Has (x ∷ ms)) page
Has-weaken x ms [] h = tt
Has-weaken x ms (y ∷ page) h = (ground arith, Has-weaken x ms page h.1)

with_older-old :
    (x : ChatMessage) (page current : List ChatMessage)
    → any (has_id x.id) current ≡ true
    → with_older (x ∷ page) current ≡ with_older page current
with_older-old x page current old = rw old

with_older-new :
    (x : ChatMessage) (page current : List ChatMessage)
    → any (has_id x.id) current ≡ false
    → with_older (x ∷ page) current ≡ x ∷ with_older page current
with_older-new x page current new = rw new

Has-current :
    (x : ChatMessage) (page current : List ChatMessage)
    → any (has_id x.id) current ≡ true
    → Has (with_older page current) x
Has-current x page current old =
    ground
      (arith, any-append (has_id x.id) (filter (λ m. not (any (has_id m.id) current)) page) current)

Has-first : (x : ChatMessage) (ms : List ChatMessage) → Has (x ∷ ms) x
Has-first x ms = ground (arith, eq_refl x.id)

Has-with_older : (page current : List ChatMessage) → All (Has (with_older page current)) page
Has-with_older [] current = tt
Has-with_older (x ∷ page) current = elim (Bool-cases (any (has_id x.id) current)) [
  | inl old ↦
      subst (λ l. All (Has l) (x ∷ page)) (sym (with_older-old x page current old))
        (Has-current x page current old, Has-with_older page current)
  | inr new ↦
      subst (λ l. All (Has l) (x ∷ page)) (sym (with_older-new x page current new))
        (
          Has-first x (with_older page current),
          Has-weaken x (with_older page current) page (Has-with_older page current),
        )
]

-- Loading more chat, with a cursor when it was asked for, in a room with a name, and with an answer whose ids are
-- distinct, keeps the ids of the messages distinct, whatever has happened to the store in between, puts what
-- is new before the messages that are there when the answer comes, leaves the id of each loaded message in
-- the list, takes the answer's cursor over, clears the error and reports success.
pub load_more :
    (room_id : String) (history : ChatHistory) (before s : RoomStore)
    → is_truthy (some room_id) ≡ true
    → is_truthy before.chat_cursor ≡ true
    → Distinct (ids history.messages)
    → Distinct (ids s.messages)
    → let (s', loaded) = handle_load_more_chat room_id (some history) before s in
      Distinct (ids s'.messages)
      × ((new : List ChatMessage) × (s'.messages ≡ new ++ s.messages))
      × All (Has s'.messages) history.messages
      × (s'.chat_cursor ≡ history.next_cursor)
      × (s'.chat_load_error ≡ false)
      × (loaded ≡ true)
unfolding handle_load_more_chat load_answer set_messages set_chat_cursor set_chat_load_error
load_more room_id history before s r c d d' = rw r (
    rw c (
      Distinct-with_older history.messages s.messages d d',
      (filter (λ m. not (any (has_id m.id) s.messages)) history.messages, refl),
      Has-with_older history.messages s.messages,
      refl,
      refl,
      refl,
    ))
