-- ===== src/Handler/Roster.antt =====
-- frontend/src/hooks/useRoomWsHandler.ts: the list of participants, read as a map from user ids.
use syncwatch.Shared.{
  String, ◌≡◌, refl, inl, inr, false, Option, none, some, List, [], ◌∷◌, ◌++◌, arith, str_eq,
  eq_iff, or_else, is_some, if◌then◌else◌, Bool-cases,
}
use mathlib.Core.Option
use syncwatch.Protocol.{
  WsParticipant, sync_state, WsBody, WsMessage, room_state, user_joined, user_left,
  file_verify_response, participant_ready, sync, participant_status,
}
use syncwatch.Session.{RoomClient}
use syncwatch.Handler.{newcomer, is_new_version, dispatch, handle, left, map_user, is_user}

-- The first participant with the id.
abbrev pub find : String → List WsParticipant → Option WsParticipant
find id [] = none
find id (p ∷ ps) = if is_user id p then some p else find id ps

abbrev pub user_ids : List WsParticipant → List String
user_ids [] = []
user_ids (p ∷ ps) = p.user_id ∷ user_ids ps

-- What a message says of one user, as an update of that user's entry.
abbrev pub entry_after : WsBody → String → Option WsParticipant → Option WsParticipant
entry_after (room_state m) id entry = find id m.participants
entry_after (user_joined who name connection) id entry =
    if str_eq who id
    then some (record {
      user_id = who;
      username = name;
      is_ready = false;
      joined_at = none;
      status = none;
      status_detail = none;
    })
    else entry
entry_after (user_left who name reason) id entry = if str_eq who id then none else entry
entry_after (participant_ready who ready) id entry =
    if str_eq who id
    then Option.map {A = WsParticipant} (λ p. record p { is_ready = ready }) entry
    else entry
entry_after (participant_status who st detail) id entry =
    if str_eq who id
    then Option.map {A = WsParticipant} (λ p. record p { status = some st; status_detail = detail })
        entry
    else entry
entry_after _ id entry = entry

find-left :
    (who id : String) (ps : List WsParticipant)
    → find id (left who ps) ≡ (if str_eq who id then none else find id ps)
find-left who id [] = ground arith
find-left who id (p ∷ ps) =
    ground (arith, find-left who id ps, eq_iff who id, eq_iff p.user_id id, eq_iff p.user_id who)

find-append :
    (id : String) (ps qs : List WsParticipant)
    → find id (ps ++ qs) ≡ (if is_some (find id ps) then find id ps else find id qs)
find-append id [] qs = refl
find-append id (p ∷ ps) qs = ground (arith, find-append id ps qs)

-- A change of an entry that leaves its id alone.
find-map_user :
    (who id : String) (f : WsParticipant → WsParticipant) (ps : List WsParticipant)
    → ((p : WsParticipant) → (f p).user_id ≡ p.user_id)
    → find id (map_user who f ps)
      ≡ (if str_eq who id then Option.map f (find id ps) else find id ps)
find-map_user who id f [] h = ground arith
find-map_user who id f (p ∷ ps) h = ground (
  arith,
  h p,
  find-map_user who id f ps h,
  eq_iff who id,
  eq_iff p.user_id id,
  eq_iff p.user_id who,
  eq_iff (f p).user_id id,
)

-- The list that the store keeps behaves as a map from ids to entries: after any message, the entry of
-- any user is the one that the message alone says, from the entry before.
pub find-handle :
    (msg : WsMessage) (id : String) (c : RoomClient)
    → find id (handle msg c).0.store.participants
      ≡ entry_after msg.body id (find id c.store.participants)
unfolding handle
find-handle msg id c = go msg.body
  where
    go :
        (b : WsBody)
        → find id (dispatch b msg.file_version c).0.store.participants
          ≡ entry_after b id (find id c.store.participants)
    go (room_state m) =
        elim (Bool-cases
          (is_new_version c.file_version_ref (or_else msg.file_version m.file_info.file_version))) [
            | inl e ↦ rw e (ground arith)
            | inr e ↦ rw e (ground arith)
          ]
    go (user_joined who name connection) = ground (
      arith,
      find-append id (left who c.store.participants) (newcomer who name ∷ []),
      find-left who id c.store.participants,
    )
    go (user_left who name reason) = find-left who id c.store.participants
    go (participant_ready who ready) =
        find-map_user who id (λ p. record p { is_ready = ready }) c.store.participants (λ p. refl)
    go (participant_status who st detail) =
        find-map_user who id (λ p. record p { status = some st; status_detail = detail })
          c.store.participants (λ p. refl)
    go (sync (sync_state p t)) = refl
    go (file_verify_response m r f) = ground arith
    go _ = ground arith
