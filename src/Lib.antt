-- ===== src/Lib.antt =====
-- SyncWatch: the web client of a service where several people watch the same local file in step.
-- A room has a server, which is outside; each client holds a WebSocket to it, a copy of the room's
-- state, and a video element that it keeps in step with the room.
--
-- The client is the TypeScript under frontend/src. Its parts and their files:
--   Protocol: frontend/src/types/ws.ts: the messages of the server and the records kept of them
--   Store: frontend/src/store/roomStore.ts: the state that the components of a room share, each
--     `set…` a function on it, with the trace of the object URLs that it revokes
--   Navigation: frontend/src/types/navigation.ts: the notices that the dashboard shows on
--     arrival
--   Session: frontend/src/pages/RoomPage.tsx: the setters and refs that the page lends to the
--     message handler, as one record, and the grace countdown of
--     frontend/src/hooks/useRoomWsHandler.ts
--   Handler: frontend/src/hooks/useRoomWsHandler.ts: `handle`, what one message does, case by
--     case
--   Connection: frontend/src/hooks/useWebSocket.ts: the refs and the state of the hook, and the
--     calls it makes
--   Socket: frontend/src/hooks/useWebSocket.ts: `connect` cut at its awaits, the socket's
--     callbacks, the reconnect timer, `send`, and the addresses of the server
--   VideoSync: frontend/src/hooks/useVideoSync.ts: what a message of the room does to the video
--     element, the replay of the last one, and the overlay of a refused autoplay
--   RoomPage: frontend/src/pages/RoomPage.tsx: the user's commands, the announcement that the
--     local file is ready, the pages of chat history, leaving, and the toasts and the hint of
--     the page
--   Page: frontend/src/pages/RoomPage.tsx: how a frame goes from Socket through Handler to VideoSync,
--     the local file from FileSelector to Store and its object URLs, and what the page sends
--   RoomScreen: frontend/src/pages/RoomPage.tsx, frontend/src/components/room/RoomHeader.tsx,
--     frontend/src/components/room/RoomSidebar.tsx and frontend/src/components/room/MobileRoom.tsx:
--     what is shown around the video
--   ParticipantList: frontend/src/components/room/ParticipantList.tsx: who is shown in the room, in order
--   LoadRoom: frontend/src/hooks/useLoadRoom.ts: loading a room and the first page of its chat
--   FileSelector: frontend/src/components/room/FileSelector.tsx: choosing, verifying and restoring a
--     local file, with the object URL that stands for it
--   Fingerprint: frontend/src/utils/fileHash.ts: which bytes of a file are hashed, and how the
--     hash is written
--   PlaybackControls: frontend/src/components/room/PlaybackControls.tsx: the play button, the
--     keys, the scrubber, the volume, and how a position is written
--   VideoPlayer: frontend/src/components/room/VideoPlayer.tsx: clicks, double clicks and taps
--   Stage: frontend/src/components/room/VideoArea.tsx, frontend/src/hooks/useFullscreen.ts
--     and frontend/src/components/room/StageOverlays.tsx: fullscreen, the control bar and what
--     else lies over the video
--   ChatPanel: frontend/src/components/room/ChatPanel.tsx: scrolling, sending, and what is shown
--   RoomFiles: frontend/src/utils/persistentFileHandle.ts: the file of a room kept across visits
--   Ui: frontend/src/contexts/UiContext.tsx: toasts with their timers, and the confirmation
--     dialog
--   Focus: frontend/src/components/ui/ConfirmDialog.tsx and
--     frontend/src/components/auth/AuthModal.tsx: the keys of an open dialog
--   ApiClient: frontend/src/api/client.ts: the HTTP client's two interceptors and the refresh
--     that failed requests share
--   Rest: frontend/src/api/auth.ts and frontend/src/api/rooms.ts: what each call asks for
--   Shell: frontend/src/components/layout/TopBar.tsx, frontend/src/App.tsx, frontend/src/pages and
--     frontend/src/components/home/GuestHome.tsx: the menu of the user, and the page of each path
--   Auth: frontend/src/contexts/AuthContext.tsx and
--     frontend/src/components/layout/ProtectedRoute.tsx: who is signed in
--   AuthModal: frontend/src/components/auth/AuthModal.tsx: the form to sign in and to register
--   Dashboard: frontend/src/components/home/Dashboard.tsx: creating, joining, opening and
--     deleting rooms, with the types of frontend/src/types/room.ts
--   Widgets: frontend/src/components/ui/CodeChip.tsx, frontend/src/components/ui/Segmented.tsx,
--     frontend/src/components/ui/LangToggle.tsx and frontend/src/hooks/useIsMobile.ts: the chip that
--     copies a code, tabs, the switch of the language, and the width of the window
--   I18n: frontend/src/i18n/dict.ts and frontend/src/i18n/LanguageContext.tsx: the texts of the
--     two languages
-- Shared has what they have in common: tests on numbers and texts, lists, JavaScript's rounding and
-- truthiness. Examples has each theorem at a concrete input, and runs of the code.
--
-- How they meet: Socket filters the frames by their sequence numbers and delivers what is left to
-- Handler, which changes the Store and hands playback messages to VideoSync; RoomPage and
-- FileSelector answer with commands, sent through Socket; ApiClient fetches the tickets for Socket
-- and the chat for RoomPage. FileSelector sends the hash of Fingerprint and keeps an accepted file in
-- RoomFiles. VideoPlayer hands its clicks to RoomPage and its taps to Stage. Auth hears of the logouts
-- that ApiClient signals, and a login is two events, one for each await, with the count of the logins
-- that wait for their user; Dashboard shows the notices of Navigation in the texts of I18n.
--
-- How the code is modelled. A callback is a function from the state and its arguments to the state
-- after it and the calls that it makes, in order; refs and React state are fields of one record, and
-- a setter's effect is there for the next callback. An asynchronous function is cut at its awaits,
-- one function for each part, so that every interleaving is a list of events. A timer is a field
-- that holds what it counts, and its firing is an event. Times on the wire are whole milliseconds,
-- positions of the player are whole microseconds, playback rates are in thousandths. Numbers have no
-- bound: the program's are far below 2 ^ 53.
--
-- The digits of a number have the number plus one as fuel, which is enough since each digit divides the
-- rest by ten; all other recursion is on lists and numbers.
--
-- What is outside and a parameter: the object stores and the answers of the browser (RoomFiles),
-- the digest (Fingerprint), `toLowerCase` (FileSelector), `toUpperCase`, the time of a date and its
-- text (Dashboard, ChatPanel), the comparison of names (ParticipantList), and the browser's own move of
-- the focus (Focus). The media element is one too (VideoSync), with its length and whether the browser lets
-- it start, and with its calls as they are documented. What is read of the video element, the
-- answers of the server, the delays of timers and whether the socket takes a message are arguments of
-- the step that meets them.
-- A view is a function from the state to a record of what a component shows: texts, what is offered and what
-- is disabled, in order.
-- Not modelled: styles, icons, class names and wrappers (frontend/src/components/ui/icons.tsx, Panel.tsx,
-- Field.tsx and the like beside it, and frontend/src/components/layout/Layout.tsx); the letter of an avatar; the
-- error boundary; exceptions out of JSON.parse and out of callbacks.
mod Shared
pub mod Protocol
pub mod Store
pub mod Navigation
pub mod Session
pub mod Handler
pub mod Connection
pub mod Socket
pub mod VideoSync
pub mod Ui
pub mod ApiClient
pub mod ParticipantList
pub mod PlaybackControls
pub mod I18n
pub mod Auth
pub mod AuthModal
pub mod Focus
pub mod Dashboard
pub mod RoomFiles
pub mod RoomPage
pub mod RoomScreen
pub mod ChatPanel
pub mod VideoPlayer
pub mod Stage
pub mod LoadRoom
pub mod Fingerprint
pub mod FileSelector
mod Examples
pub mod Page
pub mod Widgets
pub mod Rest
pub mod Shell
