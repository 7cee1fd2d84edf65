-- ===== src/I18n/Notices.antt =====
-- frontend/src/i18n/dict.ts with frontend/src/components/home/Dashboard.tsx: the texts of the notices.
use syncwatch.Shared.{◌≡◌, refl, true, is_truthy}
use syncwatch.Navigation.{
  HomeArrivalNoticeKey, room_closed_host_left, room_closed_host_timeout, room_closed_deleted,
  room_closed_generic, tab_replaced, room_not_found, access_lost, room_load_failed,
  room_connection_failed,
}
use syncwatch.I18n.{Lang, en, pl, arrival_title, arrival_sub}

-- The two keys that the dashboard computes from a notice are in both dictionaries, with texts that are not
-- empty; so no arrival shows a toast without its text.
pub every_notice_has_texts :
    (lang : Lang) (key : HomeArrivalNoticeKey)
    → (is_truthy (arrival_title lang key) ≡ true) × (is_truthy (arrival_sub lang key) ≡ true)
every_notice_has_texts en room_closed_host_left = (refl, refl)
every_notice_has_texts en room_closed_host_timeout = (refl, refl)
every_notice_has_texts en room_closed_deleted = (refl, refl)
every_notice_has_texts en room_closed_generic = (refl, refl)
every_notice_has_texts en tab_replaced = (refl, refl)
every_notice_has_texts en room_not_found = (refl, refl)
every_notice_has_texts en access_lost = (refl, refl)
every_notice_has_texts en room_load_failed = (refl, refl)
every_notice_has_texts en room_connection_failed = (refl, refl)
every_notice_has_texts pl room_closed_host_left = (refl, refl)
every_notice_has_texts pl room_closed_host_timeout = (refl, refl)
every_notice_has_texts pl room_closed_deleted = (refl, refl)
every_notice_has_texts pl room_closed_generic = (refl, refl)
every_notice_has_texts pl tab_replaced = (refl, refl)
every_notice_has_texts pl room_not_found = (refl, refl)
every_notice_has_texts pl access_lost = (refl, refl)
every_notice_has_texts pl room_load_failed = (refl, refl)
every_notice_has_texts pl room_connection_failed = (refl, refl)
