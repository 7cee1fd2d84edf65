-- ===== src/Page/Redelivery.antt =====
-- frontend/src/pages/RoomPage.tsx over frontend/src/hooks/useWebSocket.ts: frames that come again or late.
use syncwatch.Shared.{
  ℕ, max, ◌≡◌, refl, ap, Bool, Bool-cases, inl, inr, true, false, not, Option, none, some, List, [],
  ◌∷◌, ◌++◌, append-nil, ltb, arith, if◌then◌else◌,
}
use syncwatch.Protocol.{WsMessage}
use syncwatch.Socket.{is_stale, seq_after}
use syncwatch.Socket.Seq.{accepted, on_message_stale, on_message_fresh}
use syncwatch.Session.{RoomClient}
use syncwatch.VideoSync.{Video, SyncState}
use syncwatch.Page.{Page, PageCall, receive, on_frame, arrive}

-- Above the highest number so far, or without a number.
abbrev pub is_new : (seq highest : Option ℕ) → Bool
is_new (some n) (some h) = ltb h n
is_new _ _ = true

abbrev pub highest_of : (seq highest : Option ℕ) → Option ℕ
highest_of (some n) (some h) = some (max h n)
highest_of (some n) none = some n
highest_of none highest = highest

-- The frames whose number is above all before them, and those without a number.
abbrev pub news :
    (highest : Option ℕ) → List (Option Video × WsMessage) → List (Option Video × WsMessage)
news highest [] = []
news highest ((video, msg) ∷ frames) =
    let rest = news (highest_of msg.seq highest) frames in
    if is_new msg.seq highest then (video, msg) ∷ rest else rest

-- The handler and the sync hook alone, without a filter.
unfoldable pub receive_all :
    List (Option Video × WsMessage)
    → RoomClient × SyncState
    → (RoomClient × SyncState) × List PageCall
unfolding receive
receive_all [] r = (r, [])
receive_all ((video, msg) ∷ frames) r =
    let (r', calls) = receive video msg r in
    let (r'', more) = receive_all frames r' in (r'', calls ++ more)

new_not_stale : (seq last : Option ℕ) → is_new seq last ≡ not (is_stale seq last)
new_not_stale none last = refl
new_not_stale (some n) none = refl
new_not_stale (some n) (some l) = ground arith

highest_stale : (seq last : Option ℕ) → is_stale seq last ≡ true → highest_of seq last ≡ last
highest_stale none last h = absurd (ground arith)
highest_stale (some n) none h = absurd (ground arith)
highest_stale (some n) (some l) h = ap some (ground arith)

highest_fresh :
    (seq last : Option ℕ) → is_stale seq last ≡ false → highest_of seq last ≡ seq_after seq last
highest_fresh none none h = refl
highest_fresh none (some l) h = refl
highest_fresh (some n) none h = refl
highest_fresh (some n) (some l) h = ap some (ground arith)

-- What is seen of a page and its calls beside the connection.
abbrev pub seen : Page × List PageCall → (RoomClient × SyncState) × List PageCall
seen (p, calls) = ((p.room, p.sync), calls)

frame_stale :
    (video : Option Video) (msg : WsMessage) (p : Page)
    → is_stale msg.seq p.connection.last_seq ≡ true
    → on_frame video msg p ≡ (p, [])
unfolding on_frame
frame_stale video msg p h = rw (on_message_stale msg p.connection h)

-- A frame that is not stale goes to the handler and the sync hook.
pub frame_fresh :
    (video : Option Video) (msg : WsMessage) (p : Page)
    → is_stale msg.seq p.connection.last_seq ≡ false
    → let (r, calls) = receive video msg (p.room, p.sync) in
      on_frame video msg p
      ≡ (record { connection = accepted msg p.connection; room = r.0; sync = r.1 }, calls)
unfolding on_frame
frame_fresh video msg p h =
    let (r, calls) = receive video msg (p.room, p.sync) in
    let after : Page = record { connection = accepted msg p.connection; room = r.0; sync = r.1 } in
    rw (on_message_fresh msg p.connection h)
      (ap (λ (l : List PageCall). (after, l)) (append-nil calls))

seen-arrive :
    (frames : List (Option Video × WsMessage)) (p : Page) (highest : Option ℕ)
    → p.connection.last_seq ≡ highest
    → seen (arrive frames p) ≡ receive_all (news highest frames) (p.room, p.sync)
unfolding arrive receive_all
seen-arrive [] p highest e = refl
seen-arrive ((video, msg) ∷ frames) p highest e = elim (Bool-cases (is_stale msg.seq highest)) [
  | inl stale ↦ rw (frame_stale video msg p (rw e stale)) (
      rw (new_not_stale msg.seq highest)
        (rw stale (rw (highest_stale msg.seq highest stale) (seen-arrive frames p highest e))))
  | inr fresh ↦
      let (r, calls) = receive video msg (p.room, p.sync) in
      let after : Page = record {
        connection = accepted msg p.connection;
        room = r.0;
        sync = r.1;
      } in
      let rest = seen-arrive frames after (seq_after msg.seq highest) (ap (seq_after msg.seq) e) in
      rw (frame_fresh video msg p (rw e fresh)) (
        rw (new_not_stale msg.seq highest) (
          rw fresh (
            rw (highest_fresh msg.seq highest fresh)
              (ap (λ (q : (RoomClient × SyncState) × List PageCall). (q.0, calls ++ q.1)) rest))))
]

-- Whatever frames arrive on a connection, and however often or late they come again, the room, the sync
-- state and everything that the page does are those of the handler and the sync hook, without any filter,
-- on just the frames whose number is above all before them and the frames without a number.
pub arrive-receive_all :
    (frames : List (Option Video × WsMessage)) (p : Page)
    → seen (arrive frames p) ≡ receive_all (news p.connection.last_seq frames) (p.room, p.sync)
arrive-receive_all frames p = seen-arrive frames p p.connection.last_seq refl
