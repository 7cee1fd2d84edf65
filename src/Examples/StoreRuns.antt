-- ===== src/Examples/StoreRuns.antt =====
-- Runs of the room store (frontend/src/store/roomStore.ts).
use syncwatch.Shared.{◌≡◌, List, [], ◌∷◌, ◌++◌, All, Distinct}
use syncwatch.Protocol.{ChatMessage}
use syncwatch.Store.{init}
use syncwatch.Store.Messages.{ids, Has, add_all, add_all_lem}

abbrev pub hello : ChatMessage
hello = record {
  id = "1";
  user_id = "ann";
  username = "Ann";
  content = "hello";
  created_at = "12:00";
}

abbrev pub answer : ChatMessage
answer = record {
  id = "2";
  user_id = "bob";
  username = "Bob";
  content = "hi";
  created_at = "12:01";
}

abbrev chat : List ChatMessage
chat = hello ∷ answer ∷ hello ∷ []

add_all_lem_example :
    Distinct (ids (add_all chat init).messages)
    × ((rest : List ChatMessage) × ((add_all chat init).messages ≡ init.messages ++ rest))
    × All (Has (add_all chat init).messages) chat
unfolding init
add_all_lem_example = add_all_lem chat init tt
