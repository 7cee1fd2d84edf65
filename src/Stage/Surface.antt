-- ===== src/Stage/Surface.antt =====
-- frontend/src/components/room/VideoArea.tsx with what frontend/src/pages/RoomPage.tsx hands to it: what the
-- stage holds. `t` is the dictionary's texts, and `waiting_chip` the text of `ti` with the two numbers.
use syncwatch.Shared.{
  ℕ, String, Bool, true, false, Option, none, some, List, [], ◌∷◌, or_else, is_truthy, str_eq,
  length, if◌then◌else◌,
}
use syncwatch.Protocol.{RoomStatus}
use syncwatch.Session.{RoomClient}
use syncwatch.RoomPage.{can_control}
use syncwatch.RoomPage.Notices.{ConnectionState, connected, reconnecting}
use syncwatch.ParticipantList.{ready_count}
use syncwatch.Stage.{Stage, is_fullscreen, controls_hidden}
use syncwatch.Stage.View as View
use syncwatch.Stage.View.{
  Scene, OverlayKind, shows_banner, shows_play_glyph, shows_resume, overlays, overlay_texts,
}

pub record Texts : Type 0 where
  pub change_file : String
  pub err_codec : String
  pub err_codec_sub : String
  pub err_playback : String
  pub err_playback_sub : String
  pub st_autoplay_title : String
  pub st_autoplay_sub : String
  pub st_autoplay_btn : String
  pub waiting_chip : (ready total : ℕ) → String
  pub overlay : View.Texts

-- What the page and its hooks know besides the room's state and the stage's.
pub record Props : Type 0 where
  pub is_host : Bool
  pub connection : ConnectionState
  pub autoplay_blocked : Bool
  pub interaction_hint : Option String

-- The player, with what lies on it; `error` is a title and a text, `resume` with the label of a button.
pub record Player : Type 0 where
  pub src : String
  pub is_interactive : Bool
  pub hide_cursor : Bool
  pub file_name : String
  pub change_file : Option String
  pub glyph : Bool
  pub error : Option (String × String)
  pub resume : Option (String × String × String)
  pub hint : Option String

-- What the selector is told.
pub record Selecting : Type 0 where
  pub is_host : Bool
  pub room_status : RoomStatus
  pub reference_file_name : Option String
  pub reference_file_version : ℕ
  pub socket_ready : Bool

pub data Surface : Type 0 where
  player : Player → Surface
  selector : Selecting → Surface

-- The controls under the player.
pub record Bar : Type 0 where
  pub can_control : Bool
  pub is_overlay : Bool
  pub is_hidden : Bool

pub record StageView : Type 0 where
  pub surface : Surface
  pub banner : Option String
  pub overlays : List (OverlayKind × (String × String))
  pub bar : Option Bar

abbrev pub is_reconnecting : ConnectionState → Bool
is_reconnecting reconnecting = true
is_reconnecting _ = false

abbrev pub is_ready : ConnectionState → Bool
is_ready connected = true
is_ready _ = false

abbrev pub scene : Props → Stage → RoomClient → Scene
scene p s c = record {
  file_url = c.store.file_url;
  room_status = c.room_status;
  host_disconnected = c.store.host_disconnected;
  reconnecting = is_reconnecting p.connection;
  autoplay_blocked = p.autoplay_blocked;
  video_ready = c.video_ready;
  is_playing = s.is_playing;
  video_error = c.video_error;
  grace_countdown = c.store.grace_countdown;
}

-- `videoError && …`
abbrev pub error_texts : Texts → Option String → Option (String × String)
error_texts t none = none
error_texts t (some code) =
    if str_eq code ""
    then none
    else if str_eq code "codec_unsupported"
    then some (t.err_codec, t.err_codec_sub)
    else some (t.err_playback, t.err_playback_sub)

abbrev pub hint_text : Option String → Option String
hint_text hint = if is_truthy hint then hint else none

abbrev pub the_player : Texts → Props → Stage → RoomClient → Player
the_player t p s c = record {
  src = or_else c.store.file_url "";
  is_interactive = can_control c;
  hide_cursor = controls_hidden s;
  file_name = or_else c.reference_file.file_name "video";
  change_file = if p.is_host then some t.change_file else none;
  glyph = shows_play_glyph (scene p s c);
  error = error_texts t c.video_error;
  resume =
      if p.autoplay_blocked
      then some (t.st_autoplay_title, t.st_autoplay_sub, t.st_autoplay_btn)
      else none;
  hint = hint_text p.interaction_hint;
}

abbrev pub the_selector : Props → RoomClient → Selecting
the_selector p c = record {
  is_host = p.is_host;
  room_status = c.room_status;
  reference_file_name = c.reference_file.file_name;
  reference_file_version = c.reference_file.file_version;
  socket_ready = is_ready p.connection;
}

abbrev pub with_texts :
    View.Texts → (count : ℕ) → List OverlayKind → List (OverlayKind × (String × String))
with_texts t count [] = []
with_texts t count (kind ∷ kinds) = (kind, overlay_texts t kind count) ∷ with_texts t count kinds

unfoldable pub stage_view : Texts → Props → Stage → RoomClient → StageView
unfolding shows_play_glyph shows_banner overlays overlay_texts ready_count
stage_view t p s c = record {
  surface =
      if is_truthy c.store.file_url
      then player (the_player t p s c)
      else selector (the_selector p c);
  banner =
      if shows_banner (scene p s c)
      then some (t.waiting_chip (ready_count c.store.participants) (length c.store.participants))
      else none;
  overlays = with_texts t.overlay c.store.grace_countdown (overlays (scene p s c));
  bar =
      if is_truthy c.store.file_url
      then some (record {
        can_control = can_control c;
        is_overlay = is_fullscreen s;
        is_hidden = controls_hidden s;
      })
      else none;
}
