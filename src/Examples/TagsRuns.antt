-- ===== src/Examples/TagsRuns.antt =====
-- Runs of what the page sends (frontend/src/pages/RoomPage.tsx).
use syncwatch.Shared.{refl, true, none, some, List, [], ◌∷◌}
use syncwatch.Protocol.{room_state, sync, sync_check}
use syncwatch.Page.Frames.{Action, receives, can_plays, clicks, seeks, says, refuses_to_play}
use syncwatch.Page.Tags.{AllTagged, every_frame_tagged}
use syncwatch.RoomPage.{Video}
use syncwatch.Examples.HandlerRuns.{watching, untagged, snapshot}
use syncwatch.Examples.VideoSyncRuns.{running, fresh}

abbrev pub still : Video
still = record { is_paused = true; ready_state = 4; current_time_us = 1500600 }

-- A click, a message, a report that the server asks for, a snapshot with another version, and a seek.
abbrev actions : List Action
actions =
    clicks true (some still)
    ∷ says "hi"
    ∷ receives (some running) (untagged (sync (sync_check none none)))
    ∷ receives (some running) (untagged (room_state snapshot))
    ∷ refuses_to_play
    ∷ can_plays true
    ∷ seeks 4000
    ∷ []

every_frame_tagged_example : AllTagged actions (watching, fresh)
every_frame_tagged_example = every_frame_tagged actions watching fresh refl
