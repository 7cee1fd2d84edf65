-- ===== src/Navigation.antt =====
-- frontend/src/types/navigation.ts: why the client sends the user back to the dashboard.
use syncwatch.Shared.{String}

-- `StateTone` of frontend/src/components/ui/StatePanel.tsx, and `ToastTone` of ToastViewport.tsx, which
-- has the same members.
pub data Tone : Type 0 where
  neutral primary success warning danger : Tone

pub data HomeArrivalNoticeKey : Type 0 where
  room_closed_host_left room_closed_host_timeout : HomeArrivalNoticeKey
  room_closed_deleted room_closed_generic : HomeArrivalNoticeKey
  tab_replaced room_not_found access_lost : HomeArrivalNoticeKey
  room_load_failed room_connection_failed : HomeArrivalNoticeKey

pub record HomeArrivalNotice : Type 0 where
  pub key : HomeArrivalNoticeKey
  pub eyebrow : String
  pub title : String
  pub description : String
  pub tone : Tone

unfoldable pub get_home_arrival_notice : HomeArrivalNoticeKey → HomeArrivalNotice
get_home_arrival_notice room_closed_host_left = record {
  key = room_closed_host_left;
  eyebrow = "Session Ended";
  title = "The host closed this room";
  description =
      "That synced session has ended, but your dashboard is still ready for a fresh room or a quick rejoin.";
  tone = warning;
}
get_home_arrival_notice room_closed_host_timeout = record {
  key = room_closed_host_timeout;
  eyebrow = "Session Timed Out";
  title = "The host did not reconnect in time";
  description =
      "SyncWatch preserved the room for a while, then closed it when the host could not return.";
  tone = warning;
}
get_home_arrival_notice room_closed_deleted = record {
  key = room_closed_deleted;
  eyebrow = "Room Removed";
  title = "This room was deleted by the host";
  description =
      "You were returned safely to the dashboard. Start another session or open one of your recent rooms.";
  tone = danger;
}
get_home_arrival_notice room_closed_generic = record {
  key = room_closed_generic;
  eyebrow = "Session Ended";
  title = "This room is no longer active";
  description =
      "The synced session was closed, and the dashboard is ready for whatever you want to do next.";
  tone = warning;
}
get_home_arrival_notice tab_replaced = record {
  key = tab_replaced;
  eyebrow = "Tab Switched";
  title = "This session moved to another tab";
  description =
      "Only one active room tab stays connected at a time, so this one was closed to protect the shared session state.";
  tone = primary;
}
get_home_arrival_notice room_not_found = record {
  key = room_not_found;
  eyebrow = "Room Missing";
  title = "That room is no longer available";
  description = "It may have been deleted or the room code now points to a closed session.";
  tone = warning;
}
get_home_arrival_notice access_lost = record {
  key = access_lost;
  eyebrow = "Access Changed";
  title = "You no longer have access to this room";
  description =
      "Your membership changed, so SyncWatch returned you to the dashboard instead of leaving you in a broken session.";
  tone = danger;
}
get_home_arrival_notice room_load_failed = record {
  key = room_load_failed;
  eyebrow = "Room Unavailable";
  title = "We couldn't restore this room right now";
  description =
      "The dashboard is still available while you retry later or open another synced room.";
  tone = warning;
}
get_home_arrival_notice room_connection_failed = record {
  key = room_connection_failed;
  eyebrow = "Connection Issue";
  title = "Could not reopen the live room channel";
  description =
      "The room link could not be restored right now. Your dashboard is ready while the connection recovers.";
  tone = primary;
}
