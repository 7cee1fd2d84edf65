-- ===== src/AuthModal/Checks.antt =====
-- frontend/src/components/auth/AuthModal.tsx: what is asked of the server, and when.
use syncwatch.Shared.{
  ◌≤◌, ◌≡◌, refl, ◌⊎◌, inl, inr, Bool-cases, true, none, some, arith, ltb, utf16_length,
}
use syncwatch.Auth.{AuthModalMode, login, register}
use syncwatch.AuthModal.{Texts, Modal, ask_register, ask_login, submit, is_username}

-- What the form holds keeps the rules of a registration.
abbrev pub IsValid : Modal → Type 0
IsValid m = (8 ≤ utf16_length m.password) × (is_username m.username ≡ true)

-- A submission asks for nothing and shows which rule is broken; or it asks with what the form holds, waits,
-- and shows no error, and a registration is asked for only within the rules.
pub submit_cases :
    (t : Texts) (m : Modal) (mode : AuthModalMode)
    → m.mode ≡ mode
    → let (m', call) = submit t m in
      ((call ≡ none)
        × (m'.loading ≡ m.loading)
        × ((m'.error ≡ t.err_password_short) ⊎ (m'.error ≡ t.err_username_rule)))
      ⊎ ((m'.loading ≡ true)
          × (m'.error ≡ "")
          × ((call ≡ some (ask_login m.email m.password))
              ⊎ ((call ≡ some (ask_register m.username m.email m.password)) × IsValid m)))
unfolding submit
submit_cases t m login e = rw e (inr (refl, refl, inl refl))
submit_cases t m register e = elim (Bool-cases (ltb (utf16_length m.password) 8)) [
  | inl short ↦ rw e (rw short (inl (refl, refl, inl refl)))
  | inr long ↦ elim (Bool-cases (is_username m.username)) [
    | inr bad ↦ rw e (rw long (rw bad (inl (refl, refl, inr refl))))
    | inl good ↦
        let enough : 8 ≤ utf16_length m.password = ground arith in
        rw e (rw long (rw good (inr (refl, refl, inr (refl, (enough, refl))))))
  ]
]
