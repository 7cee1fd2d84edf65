-- ===== src/Store/Messages.antt =====
-- frontend/src/store/roomStore.ts: the chat messages that the store keeps.
use syncwatch.Shared.{
  String, ◌≡◌, refl, ap, ◌∙◌, ◌≢◌, Bool, true, false, ◌||◌, List, [], ◌∷◌, ◌++◌, append-nil,
  append_assoc, arith, eq_iff, eq_refl, any, All, Distinct, Bool-cases, inl, inr,
}
use syncwatch.Protocol.{ChatMessage}
use syncwatch.Store.{RoomStore, has_id, add_message}

abbrev pub ids : List ChatMessage → List String
ids [] = []
ids (m ∷ ms) = m.id ∷ ids ms

-- The message's id stands in the list.
abbrev pub Has : List ChatMessage → ChatMessage → Type 0
Has ms m = any (has_id m.id) ms ≡ true

unfoldable pub add_all : List ChatMessage → RoomStore → RoomStore
add_all [] s = s
add_all (m ∷ ms) s = add_all ms (add_message m s)

All-ne-append :
    (id : String) (ms : List ChatMessage) (m : ChatMessage)
    → All (λ y. y ≢ id) (ids ms)
    → m.id ≢ id
    → All (λ y. y ≢ id) (ids (ms ++ m ∷ []))
All-ne-append id [] m h k = (k, tt)
All-ne-append id (x ∷ ms) m h k = (h.0, All-ne-append id ms m h.1 k)

pub Distinct-append :
    (ms : List ChatMessage) (m : ChatMessage)
    → Distinct (ids ms)
    → any (has_id m.id) ms ≡ false
    → Distinct (ids (ms ++ m ∷ []))
Distinct-append [] m d h = (tt, tt)
Distinct-append (x ∷ ms) m d h = (
  All-ne-append x.id ms m d.0 (ground (arith, eq_iff x.id m.id)),
  Distinct-append ms m d.1 (ground arith),
)

pub any-append :
    (p : ChatMessage → Bool) (xs ys : List ChatMessage) → any p (xs ++ ys) ≡ (any p xs || any p ys)
any-append p [] ys = refl
any-append p (x ∷ xs) ys = ground (arith, any-append p xs ys)

pub Has-append : (xs ys : List ChatMessage) (m : ChatMessage) → Has xs m → Has (xs ++ ys) m
Has-append xs ys m h = ground (arith, any-append (has_id m.id) xs ys)

-- What adding a message does to the list: it is there, the list before it is a prefix of the list
-- after it, and ids stay distinct.
pub record Added (m : ChatMessage) (before after : List ChatMessage) : Type 0 where
  pub present : Has after m
  pub kept : (rest : List ChatMessage) × (after ≡ before ++ rest)
  pub distinct : Distinct (ids before) → Distinct (ids after)

add_message-Added :
    (m : ChatMessage) (s : RoomStore) → Added m s.messages (add_message m s).messages
unfolding add_message
add_message-Added m s = elim (Bool-cases (any (has_id m.id) s.messages)) [
  | inl old ↦ rw old (record { present = old; kept = ([], rw append-nil); distinct = λ d. d })
  | inr new ↦ rw new (record {
    present = ground (arith, any-append (has_id m.id) s.messages (m ∷ []), eq_refl m.id);
    kept = (m ∷ [], refl);
    distinct = λ d. Distinct-append s.messages m d new;
  })
]

-- Adding a list of messages to a store whose ids are distinct, in any order and with any repetitions,
-- keeps the ids distinct, keeps the messages there were as a prefix, and leaves each message's id in
-- the list.
pub add_all_lem :
    (ms : List ChatMessage) (s : RoomStore)
    → Distinct (ids s.messages)
    → Distinct (ids (add_all ms s).messages)
      × ((rest : List ChatMessage) × ((add_all ms s).messages ≡ s.messages ++ rest))
      × All (Has (add_all ms s).messages) ms
unfolding add_all
add_all_lem [] s d = (d, ([], rw append-nil), tt)
add_all_lem (m ∷ ms) s d =
    let a = add_message-Added m s in
    let t = add_message m s in
    let (d', (later, e'), all) = add_all_lem ms t (a.distinct d) in
    let (here, e) = a.kept in
    (
      d',
      (here ++ later, e' ∙ ap (λ l. l ++ later) e ∙ append_assoc s.messages here later),
      (rw e' (Has-append t.messages later m a.present), all),
    )
