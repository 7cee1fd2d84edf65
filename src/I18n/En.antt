-- ===== src/I18n/En.antt =====
-- frontend/src/i18n/dict.ts: the English texts.
use syncwatch.Shared.{String, List, [], ◌∷◌}

abbrev pub en : List (String × String)
en =
    ("tagline", "Watch the same file, perfectly in sync.")
    ∷ (
      "guest_sub",
      "Create a private room, point everyone at the same local video, and stay on one shared timeline. Nothing is uploaded.",
    )
    ∷ ("guest_eyebrow", "Local-file watch parties")
    ∷ ("create_room", "Create a room")
    ∷ ("join_with_code", "Join with code")
    ∷ ("log_in", "Log in")
    ∷ ("log_out", "Log out")
    ∷ ("signed_in", "Signed in")
    ∷ ("auth_login_title", "Welcome back")
    ∷ ("auth_register_title", "Create your account")
    ∷ ("auth_login_sub", "Sign in to create or join a room.")
    ∷ ("auth_register_sub", "One account to host and join watch sessions.")
    ∷ ("email", "Email")
    ∷ ("password", "Password")
    ∷ ("confirm_password", "Confirm password")
    ∷ ("username", "Username")
    ∷ ("auth_to_register", "No account? Sign up")
    ∷ ("auth_to_login", "Already have an account? Log in")
    ∷ ("continue", "Continue")
    ∷ ("show_password", "Show password")
    ∷ ("hide_password", "Hide password")
    ∷ ("close", "Close")
    ∷ ("err_invalid_credentials", "Invalid email or password")
    ∷ ("err_passwords_mismatch", "Passwords do not match")
    ∷ ("err_password_short", "Password must be at least 8 characters")
    ∷ ("err_username_rule", "Username: 3-30 characters, only letters, digits, and _ . -")
    ∷ ("err_register_failed", "Registration failed")
    ∷ ("notice_account_created", "Account created. Log in to continue.")
    ∷ ("dash_title", "Start watching")
    ∷ ("dash_sub", "Spin up a room or jump into one with a code.")
    ∷ ("new_room", "New room")
    ∷ ("new_room_sub", "Name it, become the host, set the reference file.")
    ∷ ("room_name", "Room name")
    ∷ ("room_name_ph", "Movie night")
    ∷ ("create", "Create room")
    ∷ ("creating", "Creating…")
    ∷ ("join_room", "Join a room")
    ∷ ("join_room_sub", "Paste the 8-character code from the host.")
    ∷ ("room_code", "Room code")
    ∷ ("join", "Join")
    ∷ ("joining", "Joining…")
    ∷ ("your_rooms", "Your rooms")
    ∷ ("file_ready", "File ready")
    ∷ ("no_file", "No file yet")
    ∷ ("no_rooms", "No rooms yet")
    ∷ ("no_rooms_sub", "Create one or join with a code to see it here.")
    ∷ ("host", "Host")
    ∷ ("viewer", "Viewer")
    ∷ ("open", "Open")
    ∷ ("copy", "Copy code")
    ∷ ("copied", "Copied")
    ∷ ("delete", "Delete")
    ∷ ("seats", "seats")
    ∷ ("err_create_room", "Failed to create room")
    ∷ ("err_join_room", "Failed to join room")
    ∷ ("err_load_rooms", "Failed to load your rooms right now.")
    ∷ ("err_copy_unavailable", "Could not copy the room code in this browser.")
    ∷ ("toast_room_deleted_title", "Room deleted")
    ∷ ("toast_room_deleted_sub", "The room was closed and removed from your dashboard.")
    ∷ ("toast_delete_failed_title", "Could not delete room")
    ∷ ("delete_room_q", "Delete this room?")
    ∷ (
      "delete_room_sub",
      "Everyone inside is disconnected and the room disappears from your dashboard.",
    )
    ∷ ("delete_room_btn", "Delete room")
    ∷ ("keep_room", "Keep room")
    ∷ ("leave", "Leave")
    ∷ ("leave_host", "Close room")
    ∷ ("connected", "Connected")
    ∷ ("reconnecting", "Reconnecting…")
    ∷ ("ready_n", "ready")
    ∷ ("back", "Back")
    ∷ ("chat", "Chat")
    ∷ ("participants", "People")
    ∷ ("host_badge", "Host")
    ∷ ("you", "You")
    ∷ ("ready_label", "Ready")
    ∷ ("waiting_label", "Waiting")
    ∷ ("select_file_host", "Select the reference video")
    ∷ ("select_file_host_sub", "Pick the local file everyone will match. Stays on your device.")
    ∷ ("select_file_viewer", "Match the host's file")
    ∷ ("select_file_viewer_sub", "Select your local copy of the shared video.")
    ∷ ("choose_file", "Choose file")
    ∷ ("waiting_host_file", "Waiting for the host to pick a file…")
    ∷ ("verifying", "Verifying…")
    ∷ ("hashing", "Reading file…")
    ∷ ("ready_to_watch", "Ready to watch")
    ∷ ("file_unreadable", "The browser couldn't read this file")
    ∷ ("file_unreadable_sub", "Try selecting it again or use a more widely supported format.")
    ∷ ("file_not_video", "That file isn't a video")
    ∷ ("file_not_video_sub", "Choose a supported local video file (mp4, mkv, webm…).")
    ∷ ("play", "Play")
    ∷ ("pause", "Pause")
    ∷ ("back5", "Back 5s")
    ∷ ("fwd5", "Forward 5s")
    ∷ ("fullscreen", "Fullscreen")
    ∷ ("exit_fullscreen", "Exit fullscreen")
    ∷ ("volume", "Volume")
    ∷ ("mute", "Mute")
    ∷ ("unmute", "Unmute")
    ∷ ("change_file", "Change file")
    ∷ ("st_reconnect_title", "Reconnecting…")
    ∷ (
      "st_reconnect_sub",
      "Hang tight — we're restoring the room. Your file and your place in it are safe.",
    )
    ∷ ("st_hostaway_title", "The host stepped away")
    ∷ (
      "st_hostaway_sub",
      "We've paused for everyone. If they're back within {n}s, you'll pick up right where you left off.",
    )
    ∷ ("st_hostaway_closing", "Wrapping up the room…")
    ∷ ("st_tab_title", "You're watching in another tab")
    ∷ (
      "st_tab_sub",
      "This room is open somewhere else on your account, so we paused it here to keep everyone in sync.",
    )
    ∷ ("st_closed_title", "The room has closed")
    ∷ ("st_closed_sub", "The host ended the session. Thanks for watching together.")
    ∷ ("st_closed_btn", "Back to dashboard")
    ∷ ("st_mismatch_title", "That's not quite the same file")
    ∷ (
      "st_mismatch_sub",
      "It doesn't match the host's copy. Pick the exact file everyone else is watching and we'll sync you right up.",
    )
    ∷ ("st_mismatch_btn", "Choose another file")
    ∷ ("st_waiting_chip", "Waiting for everyone · {ready}/{total}")
    ∷ ("st_autoplay_title", "Tap to start playback")
    ∷ ("st_autoplay_sub", "Your browser needs one tap before it can play audio and video.")
    ∷ ("st_autoplay_btn", "Resume playback")
    ∷ ("hint_load_file", "Load your file to control playback.")
    ∷ ("err_codec", "This browser cannot play the file")
    ∷ ("err_codec_sub", "Try another browser or a more widely supported video format.")
    ∷ ("err_playback", "Playback error")
    ∷ ("err_playback_sub", "Reload the local file or choose it again to recover the player.")
    ∷ ("message_ph", "Message…")
    ∷ ("send", "Send")
    ∷ ("chat_empty", "No messages yet. Say hi.")
    ∷ ("chat_load_more", "Load earlier messages")
    ∷ ("chat_load_error", "Could not load earlier messages.")
    ∷ ("retry", "Retry")
    ∷ ("leave_host_q", "Close the room for everyone?")
    ∷ ("leave_host_sub", "Leaving as host ends the session and disconnects everyone.")
    ∷ ("stay_here", "Stay here")
    ∷ ("cancel", "Cancel")
    ∷ ("toast_conn_restored_title", "Connection restored")
    ∷ ("toast_conn_restored_sub", "The live room link is healthy again.")
    ∷ ("toast_host_back_title", "Host reconnected")
    ∷ ("toast_host_back_sub", "The room recovered without losing its current state.")
    ∷ ("toast_left_title", "You left the room")
    ∷ ("toast_left_sub", "You can rejoin later from the dashboard.")
    ∷ ("toast_closed_title", "Room closed")
    ∷ ("toast_closed_sub", "The synced session was closed for everyone.")
    ∷ ("toast_slow_down", "Slow down")
    ∷ ("toast_heads_up", "Heads up")
    ∷ ("arr_room_closed_host_left_title", "The host closed this room")
    ∷ (
      "arr_room_closed_host_left_sub",
      "That synced session has ended. Start a fresh room or rejoin another.",
    )
    ∷ ("arr_room_closed_host_timeout_title", "The host did not reconnect in time")
    ∷ (
      "arr_room_closed_host_timeout_sub",
      "We kept the room for a while, then closed it when the host could not return.",
    )
    ∷ ("arr_room_closed_deleted_title", "This room was deleted by the host")
    ∷ ("arr_room_closed_deleted_sub", "You were returned safely to the dashboard.")
    ∷ ("arr_room_closed_generic_title", "This room is no longer active")
    ∷ ("arr_room_closed_generic_sub", "The synced session was closed.")
    ∷ ("arr_tab_replaced_title", "This session moved to another tab")
    ∷ (
      "arr_tab_replaced_sub",
      "Only one active room tab stays connected at a time, so this one was closed.",
    )
    ∷ ("arr_room_not_found_title", "That room is no longer available")
    ∷ (
      "arr_room_not_found_sub",
      "It may have been deleted, or the code now points to a closed session.",
    )
    ∷ ("arr_access_lost_title", "You no longer have access to this room")
    ∷ ("arr_access_lost_sub", "Your membership changed, so we returned you to the dashboard.")
    ∷ ("arr_room_load_failed_title", "We couldn't open this room right now")
    ∷ (
      "arr_room_load_failed_sub",
      "The dashboard is ready while you retry later or open another room.",
    )
    ∷ ("arr_room_connection_failed_title", "Could not reopen the live room channel")
    ∷ ("arr_room_connection_failed_sub", "The room link could not be restored right now.")
    ∷ ("nf_title", "This room is gone")
    ∷ ("nf_sub", "The link may be wrong, or the session was closed.")
    ∷ ("nf_home", "Back home")
    ∷ ("app_error_title", "Something went wrong")
    ∷ ("app_error_sub", "An unexpected error occurred. Reloading usually fixes it.")
    ∷ ("reload", "Reload")
    ∷ ("loading_room", "Loading the synced session")
    ∷ ("loading_room_sub", "Restoring room details, participant presence and recent chat.")
    ∷ ("room_unavailable_title", "This session is no longer open")
    ∷ ("room_unavailable_sub", "The room may have been removed, or your access changed.")
    ∷ ("back_to_dashboard", "Back to dashboard")
    ∷ ("sign_in_required", "Sign in to continue.")
    ∷ []
