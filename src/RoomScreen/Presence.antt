-- ===== src/RoomScreen/Presence.antt =====
-- frontend/src/pages/RoomPage.tsx: who is shown in the room, over frontend/src/hooks/useRoomWsHandler.ts.
use syncwatch.Shared.{
  String, ◌≡◌, refl, sym, ap, ◌∙◌, Bool, false, List, [], ◌∷◌, any, map, ltb, is_some, str_eq,
  arith,
}
use syncwatch.Protocol.{WsParticipant, WsMessage}
use syncwatch.Session.{RoomClient}
use syncwatch.Handler.{handle, is_user}
use syncwatch.Handler.Roster.{find, entry_after, find-handle}
use syncwatch.LoadRoom.{RoomDetail}
use syncwatch.ParticipantList as List_
use syncwatch.ParticipantList.{
  Sign, Row, row, People, participant_list, sorted_participants, ready_count,
}
use syncwatch.ParticipantList.Order.{any-count, count-sorted}
use syncwatch.RoomScreen.{
  Texts, Props, TabPanel, people_panel, chat_panel, participants, tab_panel, show_room,
}

-- An entry of the list is shown for the user; there is none in the chat.
abbrev pub lists : String → TabPanel → Bool
lists id (chat_panel view) = false
lists id (people_panel people) = any (λ r. str_eq r.key id) people.rows

any-row :
    (t : List_.Texts) (host_id me id : String) (ps : List WsParticipant)
    → any (λ r. str_eq r.key id) (map (row t host_id me) ps) ≡ any (is_user id) ps
unfolding row
any-row t host_id me id [] = refl
any-row t host_id me id (p ∷ ps) = ground (arith, any-row t host_id me id ps)

is_some-find : (id : String) (ps : List WsParticipant) → is_some (find id ps) ≡ any (is_user id) ps
is_some-find id [] = refl
is_some-find id (p ∷ ps) = ground (arith, is_some-find id ps)

any-sorted :
    (locale_compare : String → String → Sign) (host_id : String) (q : WsParticipant → Bool)
    (ps : List WsParticipant)
    → any q (sorted_participants locale_compare host_id ps) ≡ any q ps
any-sorted locale_compare host_id q ps =
    any-count q (sorted_participants locale_compare host_id ps)
    ∙ ap (ltb 0) (count-sorted locale_compare host_id ps q)
    ∙ sym (any-count q ps)

-- With the list of participants open, on a phone or not: after any message the list has an entry for a user
-- just where the message, on its own, leaves one of the entry that the user had before.
pub listed_after :
    (t : Texts) (time_of : String → String) (locale_compare : String → String → Sign)
    (room : RoomDetail) (p : Props) (c : RoomClient) (msg : WsMessage) (id : String)
    → p.active_tab ≡ participants
    → lists id (show_room t time_of locale_compare room p (handle msg c).0).panel
      ≡ is_some (entry_after msg.body id (find id c.store.participants))
unfolding show_room tab_panel participant_list
listed_after t time_of locale_compare room p c msg id open_ =
    let ps = (handle msg c).0.store.participants in
    rw open_ (
      any-row t.people_texts room.host_id _ id (sorted_participants locale_compare room.host_id ps)
      ∙ any-sorted locale_compare room.host_id (is_user id) ps
      ∙ sym (is_some-find id ps)
      ∙ ap is_some (find-handle msg id c))
