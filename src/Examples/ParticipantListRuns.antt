-- ===== src/Examples/ParticipantListRuns.antt =====
-- Runs of the list of participants (frontend/src/components/room/ParticipantList.tsx), with names compared by
-- their lengths.
use syncwatch.Shared.{
  map, ◌≤◌, String, ◌≡◌, refl, Bool, true, false, none, List, [], ◌∷◌, filter, length, ltb,
  utf16_length, arith, str_eq, if◌then◌else◌,
}
use syncwatch.Protocol.{WsParticipant}
use syncwatch.ParticipantList.{
  Sign, negative, positive, Texts, Row, row, compare, participant_list, sorted_participants,
}
use syncwatch.ParticipantList.Order.{IsCollation, Ordered, participant_list_lem}

abbrev pub by_length : String → String → Sign
by_length a b = if ltb (utf16_length b) (utf16_length a) then positive else negative

by_length-IsCollation : IsCollation by_length
by_length-IsCollation = record {
  antisymmetric = λ a b h. ground arith;
  transitive = λ a b c h k. ground arith;
}

abbrev pub texts : Texts
texts = record {
  you = "You";
  host_badge = "Host";
  ready_label = "Ready";
  waiting_label = "Waiting";
}

abbrev someone : (name : String) → Bool → WsParticipant
someone name ready = record {
  user_id = name;
  username = name;
  is_ready = ready;
  joined_at = none;
  status = none;
  status_detail = none;
}

abbrev everyone : List WsParticipant
everyone = someone "barbara" true ∷ someone "bob" false ∷ someone "anna" true ∷ []

host_first :
    sorted_participants by_length "anna" everyone
    ≡ someone "anna" true ∷ someone "bob" false ∷ someone "barbara" true ∷ []
unfolding sorted_participants compare utf16_length
host_first = refl

participant_list_lem_example :
    let shown = participant_list texts by_length "anna" "bob" everyone in
    let sorted = sorted_participants by_length "anna" everyone in
    Ordered by_length "anna" sorted
    × (length (filter (λ p. p.is_ready) sorted) ≡ 2)
    × (shown.rows ≡ map (row texts "anna" "bob") sorted)
    × (shown.total ≡ 3)
    × (shown.ready ≤ shown.total)
    × (first : Row) × (rest : List Row) × (shown.rows ≡ first ∷ rest)
    × (str_eq first.key "anna" ≡ true)
    × (first.badge ≡ "Host" ∷ [])
participant_list_lem_example =
    participant_list_lem by_length "anna" by_length-IsCollation texts "bob" everyone
      (λ p. p.is_ready) refl
