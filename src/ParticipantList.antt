-- ===== src/ParticipantList.antt =====
-- frontend/src/components/room/ParticipantList.tsx: who is in the room, in the order shown. `locale_compare`
-- is `String.prototype.localeCompare`; the avatar's letter is left out.
pub mod Order
use Prim.Native.String.{◌++◌ as append}
use syncwatch.Shared.{
  ℕ, String, Bool, true, false, List, [], ◌∷◌, map, filter, length, str_eq, if◌then◌else◌,
}
use syncwatch.Protocol.{WsParticipant}

-- The sign of what a comparison returns.
pub data Sign : Type 0 where
  negative neither positive : Sign

-- The comparison that sorts the list.
unfoldable pub compare :
    (locale_compare : String → String → Sign) (host_id : String) (a b : WsParticipant) → Sign
compare locale_compare host_id a b =
    if str_eq a.user_id host_id
    then negative
    else if str_eq b.user_id host_id
    then positive
    else locale_compare a.username b.username

abbrev pub is_positive : Sign → Bool
is_positive positive = true
is_positive _ = false

-- Where a participant goes in a sorted list: before the first one that goes behind.
abbrev pub insert_by :
    (WsParticipant → WsParticipant → Sign) → WsParticipant → List WsParticipant → List WsParticipant
insert_by compares p [] = p ∷ []
insert_by compares p (x ∷ xs) =
    let rest = insert_by compares p xs in
    if is_positive (compares x p) then p ∷ x ∷ xs else x ∷ rest

abbrev pub sort_onto :
    (WsParticipant → WsParticipant → Sign)
    → List WsParticipant
    → List WsParticipant
    → List WsParticipant
sort_onto compares sorted [] = sorted
sort_onto compares sorted (p ∷ ps) = sort_onto compares (insert_by compares p sorted) ps

-- `sorted`; the sort of JavaScript is stable.
unfoldable pub sorted_participants :
    (locale_compare : String → String → Sign)
    → (host_id : String) → List WsParticipant
    → List WsParticipant
sorted_participants locale_compare host_id ps = sort_onto (compare locale_compare host_id) [] ps

unfoldable pub ready_count : List WsParticipant → ℕ
ready_count ps = length (filter (λ p. p.is_ready) ps)

-- The texts of the dictionary.
pub record Texts : Type 0 where
  pub you : String
  pub host_badge : String
  pub ready_label : String
  pub waiting_label : String

-- One entry: its key, the label that is read out, the name, the badge, and the title of the mark.
pub record Row : Type 0 where
  pub key : String
  pub label : String
  pub name : String
  pub badge : List String
  pub title : String

unfoldable pub row : Texts → (host_id current_user_id : String) → WsParticipant → Row
row t host_id current_user_id p =
    let is_host = str_eq p.user_id host_id in
    let is_current_user = str_eq p.user_id current_user_id in
    record {
      key = p.user_id;
      label = append p.username (
          append (if is_current_user then ", you" else "") (
            append (if is_host then ", host" else "")
              (if p.is_ready then ", ready" else ", waiting")));
      name = if is_current_user then t.you else p.username;
      badge = if is_host then t.host_badge ∷ [] else [];
      title = if p.is_ready then t.ready_label else t.waiting_label;
    }

-- The list, and the numbers of the text that is read out before it.
pub record People : Type 0 where
  pub total : ℕ
  pub ready : ℕ
  pub rows : List Row

unfoldable pub participant_list :
    Texts
    → (locale_compare : String → String → Sign) → (host_id current_user_id : String)
    → List WsParticipant
    → People
unfolding sorted_participants ready_count row
participant_list t locale_compare host_id current_user_id ps =
    let sorted = sorted_participants locale_compare host_id ps in
    record {
      total = length sorted;
      ready = ready_count ps;
      rows = map (row t host_id current_user_id) sorted;
    }
