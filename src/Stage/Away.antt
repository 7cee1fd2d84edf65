-- ===== src/Stage/Away.antt =====
-- frontend/src/components/room/VideoArea.tsx over frontend/src/pages/RoomPage.tsx: the stage while the host is away.
use syncwatch.Shared.{Bool, true, false, Option, none, some, any}
use syncwatch.RoomPage as RoomPage
use syncwatch.RoomPage.{can_control}
use syncwatch.PlaybackControls as PlaybackControls
use syncwatch.Stage.{Stage}
use syncwatch.Stage.View as View
use syncwatch.Stage.View.{OverlayKind, hostaway, reconnecting, overlays, overlay_texts}
use syncwatch.Stage.Surface.{Surface, player, selector, Bar, StageView}

abbrev pub is_away : OverlayKind → Bool
is_away hostaway = true
is_away reconnecting = false

-- The overlay about the host lies on the stage.
abbrev pub shows_away : StageView → Bool
shows_away v = any (λ o. is_away o.0) v.overlays

-- The player or the bar takes input.
abbrev pub takes_clicks : Surface → Bool
takes_clicks (player p) = p.is_interactive
takes_clicks (selector s) = false

abbrev pub takes_input : Option Bar → Bool
takes_input none = false
takes_input (some bar) = bar.can_control

-- The play glyph lies on the player.
abbrev pub shows_glyph : Surface → Bool
shows_glyph (player p) = p.glyph
shows_glyph (selector s) = false
