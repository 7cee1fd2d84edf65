-- ===== src/AuthModal/View.antt =====
-- frontend/src/components/auth/AuthModal.tsx: the form that is shown.
use syncwatch.Shared.{
  ℕ, ◌≡◌, refl, String, Bool, Bool-cases, inl, inr, true, false, not, ◌&&◌, Option, none, some,
  or_else, List, [], ◌∷◌, ◌++◌, all, filter, length, leb, ltb, str_eq, utf16_length, arith,
  if◌then◌else◌,
}
use syncwatch.Auth.{AuthModalMode, login, register}
use syncwatch.AuthModal as AuthModal
use syncwatch.AuthModal.{Modal, Call, ask_login, ask_register, submit, is_username}

pub record Texts : Type 0 where
  pub auth_register_title : String
  pub auth_login_title : String
  pub auth_register_sub : String
  pub auth_login_sub : String
  pub username : String
  pub email : String
  pub password : String
  pub hide_password : String
  pub show_password : String
  pub auth_to_login : String
  pub auth_to_register : String

-- A field that is required: its type, what it holds, the lengths that the browser checks, whether it gets the
-- focus first, and whether the error describes it.
pub record Field : Type 0 where
  pub label : String
  pub kind : String
  pub value : String
  pub auto_complete : String
  pub min_length : Option ℕ
  pub max_length : Option ℕ
  pub is_first : Bool
  pub described : Bool

abbrev pub is_register : AuthModalMode → Bool
is_register register = true
is_register login = false

abbrev pub username_field : Texts → Modal → Field
username_field t m = record {
  label = t.username;
  kind = "text";
  value = m.username;
  auto_complete = "username";
  min_length = some 3;
  max_length = some 30;
  is_first = true;
  described = false;
}

abbrev pub email_field : Texts → Modal → Field
email_field t m = record {
  label = t.email;
  kind = "email";
  value = m.email;
  auto_complete = "email";
  min_length = none;
  max_length = none;
  is_first = not (is_register m.mode);
  described = false;
}

abbrev pub password_field : Texts → (show_pw : Bool) → Modal → Field
password_field t show_pw m = record {
  label = t.password;
  kind = if show_pw then "text" else "password";
  value = m.password;
  auto_complete = if is_register m.mode then "new-password" else "current-password";
  min_length = if is_register m.mode then some 8 else none;
  max_length = none;
  is_first = false;
  described = not (str_eq m.error "");
}

unfoldable pub fields : Texts → (show_pw : Bool) → Modal → List Field
fields t show_pw m =
    (if is_register m.mode then username_field t m ∷ [] else [])
    ++ (email_field t m ∷ password_field t show_pw m ∷ [])

pub record View : Type 0 where
  pub title : String
  pub sub : String
  pub fields : List Field
  pub toggle_label : String
  pub notice : Option String
  pub error : Option String
  pub submit_disabled : Bool
  pub switch_label : String
  -- the mode that the last button goes to
  pub switch_to : AuthModalMode

-- `text && …`
abbrev pub if_any : String → Option String
if_any text = if str_eq text "" then none else some text

-- The dialog, where it is open.
unfoldable pub view : Texts → (message : Option String) → (show_pw : Bool) → Modal → View
unfolding fields
view t message show_pw m =
    let registers = is_register m.mode in
    record {
      title = if registers then t.auth_register_title else t.auth_login_title;
      sub = or_else message (if registers then t.auth_register_sub else t.auth_login_sub);
      fields = fields t show_pw m;
      toggle_label = if show_pw then t.hide_password else t.show_password;
      notice = if_any m.notice;
      error = if_any m.error;
      submit_disabled = m.loading;
      switch_label = if registers then t.auth_to_login else t.auth_to_register;
      switch_to = if registers then login else register;
    }

-- What the browser asks of a required field before it submits the form, the form of an address left out.
abbrev pub at_least : Option ℕ → String → Bool
at_least none value = true
at_least (some n) value = leb n (utf16_length value)

abbrev pub at_most : Option ℕ → String → Bool
at_most none value = true
at_most (some n) value = leb (utf16_length value) n

abbrev pub passes : Field → Bool
passes f = not (str_eq f.value "") && at_least f.min_length f.value && at_most f.max_length f.value

long_password :
    (t : Texts) (show_pw : Bool) (m : Modal)
    → is_register m.mode ≡ true
    → all passes (fields t show_pw m) ≡ true
    → ltb (utf16_length m.password) 8 ≡ false
unfolding fields
long_password t show_pw m registers h = ground arith

-- Of a form whose fields the browser lets through, a login is always asked for, and a registration unless the
-- name breaks its rule, since the browser asks for as long a password as `submit`; and just one of the fields
-- gets the focus.
pub form_passes :
    (t : Texts) (message : Option String) (show_pw : Bool) (texts : AuthModal.Texts) (m : Modal)
    (mode : AuthModalMode)
    → m.mode ≡ mode
    → all passes (view t message show_pw m).fields ≡ true
    → ((submit texts m).1 ≡ (
        if not (is_register mode)
        then some (ask_login m.email m.password)
        else if is_username m.username
        then some (ask_register m.username m.email m.password)
        else none))
      × (length (filter (λ f. f.is_first) (view t message show_pw m).fields) ≡ 1)
unfolding view fields submit
form_passes t message show_pw texts m login e h = rw e (refl, refl)
form_passes t message show_pw texts m register e h =
    let registers : is_register m.mode ≡ true = rw e refl in
    let long = long_password t show_pw m registers h in
    elim (Bool-cases (is_username m.username)) [
      | inl good ↦ rw e (rw long (rw good (refl, refl)))
      | inr bad ↦ rw e (rw long (rw bad (refl, refl)))
    ]
