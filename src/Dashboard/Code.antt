-- ===== src/Dashboard/Code.antt =====
-- frontend/src/components/home/Dashboard.tsx: the field of the code, and what joining sends of it.
use Prim.Native.Char.{code}
use Prim.Native.String.{String}
use syncwatch.Shared.{
  ℕ, zero, suc, ◌≤◌, ◌≡◌, refl, ap, ◌∙◌, Bool, Bool-cases, inl, inr, true, false, ◌&&◌, [], ◌∷◌,
  arith, ltb, ◌==◌, is_space, trim, trim_start, trim_end, utf16_length, if◌then◌else◌,
}
use syncwatch.Dashboard.{
  Dashboard, join_room, is_code_char, keep_code_chars, slice_to, on_code, handle_join,
}

abbrev pub all_code_chars : String → Bool
all_code_chars String.[] = true
all_code_chars (String.◌∷◌ c s) = is_code_char (code c) && all_code_chars s

kept : (s : String) → all_code_chars (keep_code_chars s) ≡ true
kept String.[] = refl
kept (String.◌∷◌ c s) = elim (Bool-cases (is_code_char (code c))) [
  | inl good ↦ rw good (rw good (kept s))
  | inr bad ↦ rw bad (kept s)
]

sliced : (n : ℕ) (s : String) → all_code_chars s ≡ true → all_code_chars (slice_to n s) ≡ true
sliced zero s h = refl
sliced (suc n) String.[] h = refl
sliced (suc n) (String.◌∷◌ c s) h =
    let here : is_code_char (code c) ≡ true = ground arith in
    let rest : all_code_chars s ≡ true = ground arith in rw here (sliced n s rest)

length-slice : (n : ℕ) (s : String) → all_code_chars s ≡ true → utf16_length (slice_to n s) ≤ n
unfolding utf16_length
length-slice zero s h = omega arith
length-slice (suc n) String.[] h = omega arith
length-slice (suc n) (String.◌∷◌ c s) h =
    let here : is_code_char (code c) ≡ true = ground arith in
    let rest : all_code_chars s ≡ true = ground arith in
    let short = length-slice n s rest in
    let one : ltb (code c) 65536 ≡ true = ground arith in rw one (omega (arith, short))

code_no_space : (c : ℕ) → is_code_char c ≡ true → is_space c ≡ false
code_no_space c h = ground arith

trim_end-code : (s : String) → all_code_chars s ≡ true → trim_end s ≡ s
trim_end-code String.[] h = refl
trim_end-code (String.◌∷◌ c s) h =
    let rest : all_code_chars s ≡ true = ground arith in
    let here : is_space (code c) ≡ false = code_no_space (code c) (ground arith) in
    rw here (ap (String.◌∷◌ c) (trim_end-code s rest))

trim_start-code : (s : String) → all_code_chars s ≡ true → trim_start s ≡ s
trim_start-code String.[] h = refl
trim_start-code (String.◌∷◌ c s) h =
    let here : is_space (code c) ≡ false = code_no_space (code c) (ground arith) in rw here refl

trim-code : (s : String) → all_code_chars s ≡ true → trim s ≡ s
unfolding trim
trim-code s h = ap trim_end (trim_start-code s h) ∙ trim_end-code s h

join-trimmed :
    (upper : String → String) (d : Dashboard)
    → trim d.code ≡ d.code
    → (handle_join upper d).1
      ≡ (if utf16_length d.code == 8 then join_room (upper d.code) ∷ [] else [])
unfolding handle_join
join-trimmed upper d t = elim (Bool-cases (utf16_length d.code == 8)) [
  | inl full ↦ rw t (rw full refl)
  | inr short ↦ rw t (rw short refl)
]

-- Whatever is typed or pasted into the field of the code, it holds at most eight characters, all of them
-- upper-case letters or digits, and joining sends the whole of them, in upper case, just if they are eight.
pub on_code_lem :
    (upper : String → String) (value : String) (d : Dashboard)
    → let d' = on_code upper value d in
      (all_code_chars d'.code ≡ true)
      × (utf16_length d'.code ≤ 8)
      × ((handle_join upper d').1
          ≡ (if utf16_length d'.code == 8 then join_room (upper d'.code) ∷ [] else []))
unfolding on_code
on_code_lem upper value d =
    let typed = keep_code_chars (upper value) in
    let good = sliced 8 typed (kept (upper value)) in
    (
      good,
      length-slice 8 typed (kept (upper value)),
      join-trimmed upper (on_code upper value d) (trim-code (slice_to 8 typed) good),
    )
