-- ===== src/Socket/Seq.antt =====
-- frontend/src/hooks/useWebSocket.ts: messages that the hook drops by their sequence number.
use syncwatch.Shared.{
  ℕ, ◌<◌, ◌≡◌, refl, ap, inl, inr, true, false, ◌||◌, Option, none, some, List, [], ◌∷◌, arith,
  Bool-cases,
}
use syncwatch.Connection.{Connection, Call, deliver}
use syncwatch.Socket.{
  Event, opens, receives, step, run, on_message, is_stale, seq_after, is_tab_replaced,
}
use syncwatch.Protocol.{WsMessage}

-- The sequence numbers of messages, and of the messages that are handed on.
abbrev pub cons_seq : Option ℕ → List ℕ → List ℕ
cons_seq none ns = ns
cons_seq (some n) ns = n ∷ ns

abbrev pub seqs : List WsMessage → List ℕ
seqs [] = []
seqs (m ∷ ms) = cons_seq m.seq (seqs ms)

abbrev pub delivered : List Call → List WsMessage
delivered [] = []
delivered (deliver m ∷ calls) = m ∷ delivered calls
delivered (_ ∷ calls) = delivered calls

abbrev pub Above : Option ℕ → ℕ → Type 0
Above none n = Unit
Above (some last) n = last < n

-- Each number is above the one before it, the first above `last`.
abbrev pub Increasing : Option ℕ → List ℕ → Type 0
Increasing last [] = Unit
Increasing last (n ∷ ns) = Above last n × Increasing (some n) ns

abbrev pub arrivals : List WsMessage → List Event
arrivals [] = []
arrivals (m ∷ ms) = receives m ∷ arrivals ms

abbrev pub accepted : WsMessage → Connection → Connection
accepted m c = record c {
  last_seq = seq_after m.seq c.last_seq;
  intentional_close = is_tab_replaced m.body || c.intentional_close;
}

pub on_message_stale :
    (m : WsMessage) (c : Connection) → is_stale m.seq c.last_seq ≡ true → on_message m c ≡ (c, [])
unfolding on_message
on_message_stale m c h = rw h

pub on_message_fresh :
    (m : WsMessage) (c : Connection)
    → is_stale m.seq c.last_seq ≡ false
    → on_message m c ≡ (accepted m c, deliver m ∷ [])
unfolding on_message
on_message_fresh m c h = rw h

cons_seq-Increasing :
    (seq last : Option ℕ) (ns : List ℕ)
    → is_stale seq last ≡ false
    → Increasing (seq_after seq last) ns
    → Increasing last (cons_seq seq ns)
cons_seq-Increasing none last ns h i = i
cons_seq-Increasing (some n) none ns h i = (tt, i)
cons_seq-Increasing (some n) (some l) ns h i = (ground arith, i)

Increasing-fresh :
    (seq last : Option ℕ) (ns : List ℕ)
    → Increasing last (cons_seq seq ns)
    → (is_stale seq last ≡ false) × Increasing (seq_after seq last) ns
Increasing-fresh none last ns h = (refl, h)
Increasing-fresh (some n) none ns h = (refl, h.1)
Increasing-fresh (some n) (some l) ns h = (ground (arith, h.0), h.1)

-- Whatever arrives on a connection, the sequence numbers of the messages that are handed on increase
-- strictly, from above the last one seen: nothing is handled twice or out of order.
pub delivered-Increasing :
    (ms : List WsMessage) (c : Connection)
    → Increasing c.last_seq (seqs (delivered (run (arrivals ms) c).1))
unfolding run step
delivered-Increasing [] c = tt
delivered-Increasing (m ∷ ms) c = elim (Bool-cases (is_stale m.seq c.last_seq)) [
  | inl stale ↦ rw (on_message_stale m c stale) (delivered-Increasing ms c)
  | inr fresh ↦
      rw (on_message_fresh m c fresh)
        (cons_seq-Increasing m.seq c.last_seq _ fresh (delivered-Increasing ms (accepted m c)))
]

-- Nothing is lost: messages whose sequence numbers increase from above the last one seen are all handed
-- on, in order.
pub delivered_all :
    (ms : List WsMessage) (c : Connection)
    → Increasing c.last_seq (seqs ms)
    → delivered (run (arrivals ms) c).1 ≡ ms
unfolding run step
delivered_all [] c h = refl
delivered_all (m ∷ ms) c h =
    let (fresh, rest) = Increasing-fresh m.seq c.last_seq (seqs ms) h in
    rw (on_message_fresh m c fresh) (ap (◌∷◌ m) (delivered_all ms (accepted m c) rest))

-- A new socket starts afresh: after it opens, messages whose numbers increase are all handed on, also
-- where the server's counter is below the last number of the socket before.
pub delivered-opens :
    (ms : List WsMessage) (socket version : ℕ) (c : Connection)
    → Increasing none (seqs ms)
    → delivered (run (opens socket version ∷ arrivals ms) c).1 ≡ ms
unfolding run step
delivered-opens ms socket version c h = elim (Bool-cases c.has_connected) [
  | inl again ↦ rw again (delivered_all ms _ h)
  | inr first ↦ rw first (delivered_all ms _ h)
]
