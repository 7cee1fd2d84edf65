-- ===== src/RoomScreen.antt =====
-- frontend/src/pages/RoomPage.tsx with frontend/src/components/room/RoomHeader.tsx, MobileRoom.tsx and
-- RoomSidebar.tsx beside it: what the page shows around the video, on a wide screen and on a phone.
pub mod Presence
pub mod Layouts
use Prim.Native.String.{◌++◌ as append}
use syncwatch.Shared.{
  ℕ, zero, suc, ◌+◌, ◌%◌, String, Bool, true, false, ◌||◌, Option, none, some, List, [], ◌∷◌, map,
  length, or_else, is_some, str_eq, if◌then◌else◌,
}
use syncwatch.Protocol.{ChatMessage, WsParticipant}
use syncwatch.Session.{RoomClient}
use syncwatch.LoadRoom.{RoomDetail}
use syncwatch.RoomPage.Notices.{ConnectionState, connected, connecting, reconnecting}
use syncwatch.ChatPanel as ChatPanel
use syncwatch.ChatPanel.View as Chat
use syncwatch.ChatPanel.View.{ChatView, chat_view}
use syncwatch.ParticipantList as People
use syncwatch.ParticipantList.{Sign, People, participant_list, ready_count}

pub data Tab : Type 0 where
  chat participants : Tab

abbrev pub tab_text : Tab → String
tab_text chat = "chat"
tab_text participants = "participants"

abbrev pub same_tab : Tab → Tab → Bool
same_tab chat chat = true
same_tab participants participants = true
same_tab _ _ = false

pub record Texts : Type 0 where
  pub host : String
  pub viewer : String
  pub leave_host : String
  pub leave : String
  pub connected_text : String
  pub reconnecting_text : String
  pub chat_text : String
  pub participants_text : String
  pub chat_texts : Chat.Texts
  pub people_texts : People.Texts

-- What both headers say; `ready` and `total` are written with a slash between them.
pub record Header : Type 0 where
  pub room_name : String
  pub room_code : String
  pub badge : String
  pub connection : String
  pub ready : ℕ
  pub total : ℕ
  pub leave_label : String

abbrev pub is_connected : ConnectionState → Bool
is_connected connected = true
is_connected _ = false

-- `RoomHeader`
unfoldable pub room_header :
    Texts → RoomDetail → (is_host : Bool) → ConnectionState → (ready total : ℕ) → Header
room_header t room is_host state ready total = record {
  room_name = room.name;
  room_code = room.room_code;
  badge = if is_host then t.host else t.viewer;
  connection = if is_connected state then t.connected_text else t.reconnecting_text;
  ready = ready;
  total = total;
  leave_label = if is_host then t.leave_host else t.leave;
}

-- `MobileRoomHeader`
unfoldable pub mobile_room_header :
    Texts → RoomDetail → (is_host : Bool) → ConnectionState → (ready total : ℕ) → Header
mobile_room_header t room is_host state ready total = record {
  room_name = room.name;
  room_code = room.room_code;
  badge = if is_host then t.host else t.viewer;
  leave_label = if is_host then t.leave_host else t.leave;
  connection = if is_connected state then t.connected_text else t.reconnecting_text;
  ready = ready;
  total = total;
}

-- A tab: its label and count, whether it is selected, and whether the Tab key reaches it.
pub record TabItem : Type 0 where
  pub value : Tab
  pub label : String
  pub count : ℕ
  pub is_selected : Bool
  pub is_reached : Bool

abbrev pub tab_item : (active value : Tab) (label : String) (count : ℕ) → TabItem
tab_item active value label count = record {
  value = value;
  label = label;
  count = count;
  is_selected = same_tab active value;
  is_reached = same_tab active value;
}

-- The row of tabs, of `MobileTabs` and of the sidebar.
unfoldable pub tabs : Texts → (active : Tab) (chat_count people_count : ℕ) → List TabItem
tabs t active chat_count people_count =
    tab_item active chat t.chat_text chat_count
    ∷ tab_item active participants t.participants_text people_count
    ∷ []

-- `order.indexOf(activeTab)` and `order[i]`
abbrev pub index_of : Tab → ℕ
index_of chat = 0
index_of participants = 1

abbrev pub tab_at : ℕ → Option Tab
tab_at zero = some chat
tab_at (suc zero) = some participants
tab_at _ = none

-- `onKeyDown` of `MobileTabs`: the tab that a key selects, or none for another key.
unfoldable pub on_key_down : (key : String) → (active : Tab) → Option Tab
on_key_down key active =
    if str_eq key "ArrowRight" || str_eq key "ArrowLeft"
    then tab_at ((index_of active + 1) % 2)
    else none

-- The panel under the tabs; the label of a panel is the id of its tab.
pub data TabPanel : Type 0 where
  chat_panel : ChatView → TabPanel
  people_panel : People → TabPanel

-- What the page knows besides the room's state.
pub record Props : Type 0 where
  pub loading : Bool
  pub room : Option RoomDetail
  pub user_id : Option String
  pub is_mobile : Bool
  pub active_tab : Tab
  pub connection : ConnectionState
  pub panel : ChatPanel.Panel

pub record RoomView : Type 0 where
  pub is_mobile : Bool
  pub header : Header
  pub tabs : List TabItem
  pub labelled_by : String
  pub panel : TabPanel
  -- `hasMore`
  pub has_more : Bool

pub data Screen : Type 0 where
  loading_room room_unavailable : Screen
  room_view : RoomView → Screen

-- The panel of the active tab, which both screens have.
unfoldable pub tab_panel :
    Texts
    → (time_of : String → String) → (locale_compare : String → String → Sign) → RoomDetail
    → Props
    → RoomClient
    → TabPanel
unfolding chat_view participant_list
tab_panel t time_of locale_compare room p c = panel p.active_tab
  where
    panel : Tab → TabPanel
    panel chat = chat_panel (
        chat_view t.chat_texts time_of (or_else p.user_id "") c.store.chat_load_error true
          c.store.messages p.panel)
    panel participants = people_panel (
        participant_list t.people_texts locale_compare room.host_id (or_else p.user_id "")
          c.store.participants)

-- `isHost`, of a room that is there
abbrev pub is_host : RoomDetail → Option String → Bool
is_host room none = false
is_host room (some user_id) = str_eq room.host_id user_id

unfoldable pub show_room :
    Texts
    → (time_of : String → String) → (locale_compare : String → String → Sign) → RoomDetail
    → Props
    → RoomClient
    → RoomView
unfolding tab_panel room_header mobile_room_header ready_count tabs
show_room t time_of locale_compare room p c =
    let host = is_host room p.user_id in
    let ready = ready_count c.store.participants in
    let total = length c.store.participants in
    record {
      is_mobile = p.is_mobile;
      header =
          if p.is_mobile
          then mobile_room_header t room host p.connection ready total
          else room_header t room host p.connection ready total;
      tabs = tabs t p.active_tab (length c.store.messages) total;
      labelled_by =
          append (if p.is_mobile then "mobile-room-tab-" else "room-sidebar-tab-")
            (tab_text p.active_tab);
      panel = tab_panel t time_of locale_compare room p c;
      has_more = is_some c.store.chat_cursor;
    }

abbrev pub show_loaded :
    Texts
    → (time_of : String → String) → (locale_compare : String → String → Sign) → Option RoomDetail
    → Props
    → RoomClient
    → Screen
show_loaded t time_of locale_compare none p c = room_unavailable
show_loaded t time_of locale_compare (some room) p c =
    room_view (show_room t time_of locale_compare room p c)

-- What `RoomPage` returns.
unfoldable pub screen :
    Texts
    → (time_of : String → String) → (locale_compare : String → String → Sign) → Props
    → RoomClient
    → Screen
unfolding show_room
screen t time_of locale_compare p c =
    if p.loading then loading_room else show_loaded t time_of locale_compare p.room p c
