-- ===== src/Examples.antt =====
-- The theorems at inputs that exercise the code, and runs of the code at fixed inputs.
mod StoreRuns
mod HandlerRuns
mod SocketRuns
mod VideoSyncRuns
mod UiRuns
mod ApiClientRuns
mod RoomFilesRuns
mod RoomPageRuns
mod FileSelectorRuns
mod PlaybackControlsRuns
mod FingerprintRuns
mod AuthRuns
mod ShellRuns
mod LoadRoomRuns
mod StageRuns
mod VideoPlayerRuns
mod DashboardRuns
mod I18nRuns
mod PageRuns
mod ParticipantListRuns
mod RoomScreenRuns
mod LeaksRuns
mod TagsRuns
