-- ===== src/RoomScreen/Layouts.antt =====
-- frontend/src/components/room/MobileRoom.tsx against RoomHeader.tsx and RoomSidebar.tsx, whose tabs are those of
-- frontend/src/components/ui/Segmented.tsx.
use mathlib.Core.Option
use syncwatch.Shared.{String, ◌≡◌, refl, true, false, ◌||◌, arith, str_eq}
use syncwatch.Session.{RoomClient}
use syncwatch.LoadRoom.{RoomDetail}
use syncwatch.ParticipantList.{Sign}
use syncwatch.Widgets as Segmented
use syncwatch.RoomScreen.{
  Texts, Tab, chat, participants, Props, index_of, on_key_down, room_header, mobile_room_header,
  show_room,
}

arrows :
    (key : String) (active : Tab)
    → (str_eq key "ArrowRight" || str_eq key "ArrowLeft") ≡ true
    → Segmented.on_key_down key (index_of active) 2 ≡ Option.map index_of (on_key_down key active)
unfolding Segmented.on_key_down on_key_down
arrows key chat h = ground arith
arrows key participants h = ground arith

-- A phone shows of the same room, with the same tab open, the header, the tabs, the panel and the offer of older
-- messages that a wide screen shows; and either arrow key selects on it the tab that the sidebar's row of two
-- tabs selects.
pub layouts_agree :
    (t : Texts) (time_of : String → String) (locale_compare : String → String → Sign)
    (room : RoomDetail) (p : Props) (c : RoomClient) (key : String)
    → (str_eq key "ArrowRight" || str_eq key "ArrowLeft") ≡ true
    → let phone = show_room t time_of locale_compare room (record p { is_mobile = true }) c in
      let wide = show_room t time_of locale_compare room (record p { is_mobile = false }) c in
      (phone.header ≡ wide.header)
      × (phone.tabs ≡ wide.tabs)
      × (phone.panel ≡ wide.panel)
      × (phone.has_more ≡ wide.has_more)
      × (Segmented.on_key_down key (index_of p.active_tab) 2
          ≡ Option.map index_of (on_key_down key p.active_tab))
unfolding show_room room_header mobile_room_header
layouts_agree t time_of locale_compare room p c key h =
    (refl, refl, refl, refl, arrows key p.active_tab h)
