-- ===== src/I18n.antt =====
-- frontend/src/i18n/dict.ts and frontend/src/i18n/LanguageContext.tsx: the dictionaries of the two languages,
-- looked up by the text of a key, and the placeholders in them.
pub mod En
pub mod Pl
pub mod Notices
pub mod Placeholders
use mathlib.Core.Option
use Prim.Native.Char.{code}
use Prim.Native.String.{String, ◌++◌ as append}
use syncwatch.Shared.{
  ℕ, Bool, true, false, not, ◌&&◌, ◌||◌, Option, none, some, List, [], ◌∷◌, or_else, leb, ◌==◌,
  str_eq, if◌then◌else◌,
}
use syncwatch.Navigation.{
  HomeArrivalNoticeKey, room_closed_host_left, room_closed_host_timeout, room_closed_deleted,
  room_closed_generic, tab_replaced, room_not_found, access_lost, room_load_failed,
  room_connection_failed,
}
use syncwatch.I18n.En.{en as english}
use syncwatch.I18n.Pl.{pl as polish}

pub data Lang : Type 0 where
  en pl : Lang

abbrev pub Dict : Type 0
Dict = List (String × String)

-- `I18N[lang]`
abbrev pub dict : Lang → Dict
dict en = english
dict pl = polish

-- `dict[key]`, where a key that is not there yields `undefined`
abbrev pub lookup : String → Dict → Option String
lookup key [] = none
lookup key ((k, text) ∷ entries) = if str_eq k key then some text else lookup key entries

-- `readInitialLang`, in a browser: the stored text, if there is one
abbrev pub read_initial_lang : Option String → Lang
read_initial_lang none = en
read_initial_lang (some stored) = if str_eq stored "pl" then pl else en

abbrev pub lang_text : Lang → String
lang_text en = "en"
lang_text pl = "pl"

-- The provider: the language that is shown, and what is stored under `sw-lang`.
pub record Language : Type 0 where
  pub lang : Lang
  pub stored : Option String

-- The provider when it starts, with its effect, which stores the language that it shows.
unfoldable pub init_language : Option String → Language
init_language stored =
    let lang = read_initial_lang stored in record { lang = lang; stored = some (lang_text lang) }

-- `setLang`, with the effect.
unfoldable pub set_lang : Lang → Language → Language
set_lang next l = record { lang = next; stored = some (lang_text next) }

-- The texts of the members of `HomeArrivalNoticeKey`.
abbrev pub notice_text : HomeArrivalNoticeKey → String
notice_text room_closed_host_left = "room_closed_host_left"
notice_text room_closed_host_timeout = "room_closed_host_timeout"
notice_text room_closed_deleted = "room_closed_deleted"
notice_text room_closed_generic = "room_closed_generic"
notice_text tab_replaced = "tab_replaced"
notice_text room_not_found = "room_not_found"
notice_text access_lost = "access_lost"
notice_text room_load_failed = "room_load_failed"
notice_text room_connection_failed = "room_connection_failed"

-- `t['arr_' + key + '_title']` and `t['arr_' + key + '_sub']` of the dashboard
abbrev pub arrival_title : Lang → HomeArrivalNoticeKey → Option String
arrival_title lang key = lookup (append "arr_" (append (notice_text key) "_title")) (dict lang)

abbrev pub arrival_sub : Lang → HomeArrivalNoticeKey → Option String
arrival_sub lang key = lookup (append "arr_" (append (notice_text key) "_sub")) (dict lang)

-- `\w`
abbrev pub is_word : ℕ → Bool
is_word c =
    (leb b'A' c && leb c b'Z')
    || (leb b'a' c && leb c b'z')
    || (leb b'0' c && leb c b'9')
    || c == b'_'

abbrev pub not_empty : String → Bool
not_empty s = not (str_eq s "")

-- The loop of `replace(/\{(\w+)\}/g, …)`: `word` is what stands since an opening brace that may begin a
-- placeholder. A variable that is not given is replaced by the empty text.
scan : (vars : String → Option String) (word : Option String) → String → String
scan vars none String.[] = ""
scan vars (some word) String.[] = append "{" word
scan vars none (String.◌∷◌ c s) =
    let opened = scan vars (some "") s in
    let plain = scan vars none s in if code c == b'{' then opened else String.◌∷◌ c plain
scan vars (some word) (String.◌∷◌ c s) =
    let opened = scan vars (some "") s in
    let plain = scan vars none s in
    let longer = scan vars (some (append word (String.◌∷◌ c String.[]))) s in
    if is_word (code c)
    then longer
    else if code c == b'{'
    then append "{" (append word opened)
    else if code c == b'}' && not_empty word
    then append (or_else (vars word) "") plain
    else append "{" (append word (String.◌∷◌ c plain))

unfoldable pub interpolate : (template : String) (vars : String → Option String) → String
unfolding scan
interpolate template vars = scan vars none template

-- `ti` of the provider
unfoldable pub ti : Lang → (key : String) (vars : String → Option String) → Option String
unfolding interpolate
ti lang key vars = Option.map (λ text. interpolate text vars) (lookup key (dict lang))
