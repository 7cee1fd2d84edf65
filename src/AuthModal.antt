-- ===== src/AuthModal.antt =====
-- frontend/src/components/auth/AuthModal.tsx: signing in and registering. `submit` is cut at its awaits;
-- `t` is the dictionary's texts. The keys of the dialog are in Focus.
pub mod Checks
pub mod View
use Prim.Native.Char.{code}
use Prim.Native.String.{String}
use syncwatch.Shared.{
  ℕ, ◌+◌, Bool, true, false, not, ◌&&◌, ◌||◌, Option, none, some, or_else, is_truthy, leb, ltb,
  ◌==◌, str_eq, utf16_length, if◌then◌else◌,
}
use syncwatch.Auth.{Auth, AuthModalMode, login, register, is_authenticated, close_auth_modal}

pub record Texts : Type 0 where
  pub err_password_short : String
  pub err_username_rule : String
  pub err_register_failed : String
  pub err_invalid_credentials : String
  pub notice_account_created : String

pub record Modal : Type 0 where
  pub mode : AuthModalMode
  pub username : String
  pub email : String
  pub password : String
  pub error : String
  pub notice : String
  pub loading : Bool

pub data Call : Type 0 where
  ask_register : (username email password : String) → Call
  ask_login : (email password : String) → Call

-- The effect that runs when the modal opens in a mode.
unfoldable pub on_open_modal : AuthModalMode → Modal → Modal
on_open_modal mode m = record m { mode = mode; error = ""; notice = "" }

unfoldable pub switch_mode : AuthModalMode → Modal → Modal
switch_mode next m = record m { mode = next; error = ""; notice = "" }

-- The effect that closes the modal of a user who is signed in.
unfoldable pub close_when_signed_in : Auth → Auth
unfolding close_auth_modal
close_when_signed_in a = if is_authenticated a && a.auth_modal_open then close_auth_modal a else a

-- The mouse is pressed on the backdrop itself, or on what lies over it.
unfoldable pub handle_backdrop_click : (on_backdrop : Bool) → Auth → Auth
unfolding close_auth_modal
handle_backdrop_click on_backdrop a = if on_backdrop then close_auth_modal a else a

-- The fields of the form.
unfoldable pub on_username : String → Modal → Modal
on_username value m = record m { username = value }

unfoldable pub on_email : String → Modal → Modal
on_email value m = record m { email = value }

unfoldable pub on_password : String → Modal → Modal
on_password value m = record m { password = value }

-- `[A-Za-z0-9_.-]`
abbrev pub is_name_char : ℕ → Bool
is_name_char c =
    (leb b'A' c && leb c b'Z')
    || (leb b'a' c && leb c b'z')
    || (leb b'0' c && leb c b'9')
    || c == b'_'
    || c == b'.'
    || c == b'-'

abbrev pub all_name_chars : String → Bool
all_name_chars String.[] = true
all_name_chars (String.◌∷◌ c s) = is_name_char (code c) && all_name_chars s

-- `/^[A-Za-z0-9_.-]{3,30}$/.test(name)`
unfoldable pub is_username : String → Bool
is_username name = all_name_chars name && leb 3 (utf16_length name) && leb (utf16_length name) 30

-- `submit` up to its request, if it makes one.
unfoldable pub submit : Texts → Modal → Modal × Option Call
submit t m =
    let cleared = record m { error = "" } in
    elim m.mode [
      | login ↦ (record cleared { loading = true }, some (ask_login m.email m.password))
      | register ↦
          if ltb (utf16_length m.password) 8
          then (record cleared { error = t.err_password_short }, none)
          else if not (is_username m.username)
          then (record cleared { error = t.err_username_rule }, none)
          else (
            record cleared { loading = true },
            some (ask_register m.username m.email m.password),
          )
    ]

-- `detail || text`
abbrev pub detail_or : Option String → String → String
detail_or detail text = if is_truthy detail then or_else detail text else text

-- The answer of the server to a registration: the detail of a failure, or `none` for success.
unfoldable pub on_register : Texts → Option (Option String) → Modal → Modal
on_register t none m = record m {
  mode = login;
  notice = t.notice_account_created;
  username = "";
  password = "";
  loading = false;
}
on_register t (some detail) m = record m {
  error = detail_or detail t.err_register_failed;
  loading = false;
}

unfoldable pub on_login : Texts → Option (Option String) → Modal → Modal
on_login t none m = record m { loading = false }
on_login t (some detail) m = record m {
  error = detail_or detail t.err_invalid_credentials;
  loading = false;
}
