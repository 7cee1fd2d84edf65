-- ===== src/Stage/View.antt =====
-- frontend/src/components/room/VideoArea.tsx and frontend/src/components/room/StageOverlays.tsx: what lies over
-- the video. `t` is the dictionary's texts, and `host_away_in` the text of `ti` with the seconds.
use syncwatch.Shared.{
  ℕ, String, ◌≡◌, Bool, true, false, not, ◌&&◌, Option, is_truthy, leb, arith, List, [], ◌∷◌, ◌++◌,
  if◌then◌else◌,
}
use syncwatch.Protocol.{RoomStatus, waiting_ready}

-- The props and the state that are read.
pub record Scene : Type 0 where
  pub file_url : Option String
  pub room_status : RoomStatus
  pub host_disconnected : Bool
  pub reconnecting : Bool
  pub autoplay_blocked : Bool
  pub video_ready : Bool
  pub is_playing : Bool
  pub video_error : Option String
  pub grace_countdown : ℕ

abbrev pub is_waiting_ready : RoomStatus → Bool
is_waiting_ready waiting_ready = true
is_waiting_ready _ = false

-- `waiting`
unfoldable pub shows_banner : Scene → Bool
shows_banner s =
    is_truthy s.file_url
    && is_waiting_ready s.room_status
    && not s.host_disconnected
    && not s.reconnecting
    && not s.autoplay_blocked

-- `showPlayGlyph`
unfoldable pub shows_play_glyph : Scene → Bool
shows_play_glyph s =
    is_truthy s.file_url
    && s.video_ready
    && not s.is_playing
    && not s.autoplay_blocked
    && not (is_truthy s.video_error)
    && not s.host_disconnected
    && not s.reconnecting

pub data OverlayKind : Type 0 where
  reconnecting hostaway : OverlayKind

-- The stage overlays, the later ones in front.
unfoldable pub overlays : Scene → List OverlayKind
overlays s =
    (if s.reconnecting then reconnecting ∷ [] else [])
    ++ (if s.host_disconnected then hostaway ∷ [] else [])

-- The overlay over a player that the browser does not let start.
unfoldable pub shows_resume : Scene → Bool
shows_resume s = is_truthy s.file_url && s.autoplay_blocked

pub record Texts : Type 0 where
  pub st_reconnect_title : String
  pub st_reconnect_sub : String
  pub st_hostaway_title : String
  pub st_hostaway_closing : String
  pub host_away_in : ℕ → String

-- The title and the text of a stage overlay.
unfoldable pub overlay_texts : Texts → OverlayKind → (count : ℕ) → String × String
overlay_texts t reconnecting count = (t.st_reconnect_title, t.st_reconnect_sub)
overlay_texts t hostaway count =
    (t.st_hostaway_title, if leb count 0 then t.st_hostaway_closing else t.host_away_in count)

-- Where the banner that waits for the others or the play glyph is shown, no overlay covers it, neither of the
-- stage nor the one that asks to resume, and there is a file; and the glyph is shown over a ready and
-- paused player without an error only.
pub uncovered :
    (s : Scene)
    → (shows_banner s ≡ true → (overlays s ≡ []) × (shows_resume s ≡ false))
      × (shows_play_glyph s ≡ true
          → (overlays s ≡ []) × (shows_resume s ≡ false) × (s.is_playing ≡ false))
unfolding shows_banner shows_play_glyph overlays shows_resume
uncovered s = (λ b. ground arith, λ g. ground arith)
