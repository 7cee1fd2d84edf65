-- ===== src/Examples/I18nRuns.antt =====
-- Runs of the dictionaries (frontend/src/i18n/dict.ts).
use syncwatch.Shared.{◌≡◌, true, is_truthy}
use syncwatch.Navigation.{tab_replaced}
use syncwatch.I18n.{pl, arrival_title, arrival_sub}
use syncwatch.I18n.Notices.{every_notice_has_texts}

every_notice_has_texts_example :
    (is_truthy (arrival_title pl tab_replaced) ≡ true)
    × (is_truthy (arrival_sub pl tab_replaced) ≡ true)
every_notice_has_texts_example = every_notice_has_texts pl tab_replaced
