-- ===== src/PlaybackControls/Clock.antt =====
-- frontend/src/components/room/PlaybackControls.tsx: how a position is written. A text is the list of its
-- code points; `none` is a number of seconds that is not finite.
use syncwatch.Shared.{
  ℕ, zero, suc, ◌+◌, ◌-◌, ◌*◌, ◌/◌, ◌%◌, ◌<◌, ◌≡◌, refl, sym, ap, ◌∙◌, Bool-cases, inl, inr, false,
  Option, none, some, List, [], ◌∷◌, ◌++◌, append_assoc, append-nil, arith, ltb, ◌==◌,
  if◌then◌else◌,
}

-- `String(n)` with at most `fuel` digits.
unfoldable pub digits : (fuel n : ℕ) → List ℕ
digits zero n = []
digits (suc fuel) n =
    let front = digits fuel (n / 10) in
    if ltb n 10 then (b'0' + n) ∷ [] else front ++ (b'0' + n % 10) ∷ []

-- A number has fewer digits than its value plus two.
abbrev pub to_text : ℕ → List ℕ
to_text n = digits (n + 1) n

-- `s.padStart(2, '0')` of a text that is not empty
abbrev pub pad_two : List ℕ → List ℕ
pad_two (c ∷ []) = b'0' ∷ c ∷ []
pad_two s = s

abbrev pub colon : ℕ
colon = b':'

unfoldable pub format_time : Option ℕ → List ℕ
unfolding digits
format_time none = b'0' ∷ colon ∷ b'0' ∷ b'0' ∷ []
format_time (some us) =
    let s = us / 1000000 in
    let h = s / 3600 in
    let m = s % 3600 / 60 in
    let ss = pad_two (to_text (s % 60)) in
    if h == 0
    then to_text m ++ colon ∷ ss
    else to_text h ++ colon ∷ (pad_two (to_text m) ++ colon ∷ ss)

-- Reading a clock: each colon begins the next sixtieth.
abbrev pub read : List ℕ → (total field : ℕ) → ℕ
read [] total field = total * 60 + field
read (c ∷ s) total field =
    let next = read s (total * 60 + field) 0 in
    let more = read s total (field * 10 + (c - b'0')) in if c == colon then next else more

read-digit :
    (d : ℕ) (rest : List ℕ) (total field : ℕ)
    → d < 10
    → read ((b'0' + d) ∷ rest) total field ≡ read rest total (field * 10 + d)
read-digit d rest total field h =
    let other : b'0' + d == colon ≡ false = ground arith in
    let value : field * 10 + (b'0' + d - b'0') ≡ field * 10 + d = omega arith in
    rw other (ap (read rest total) value)

read-digits :
    (fuel n : ℕ) (rest : List ℕ) (total : ℕ)
    → n < fuel
    → read (digits fuel n ++ rest) total 0 ≡ read rest total n
unfolding digits
read-digits zero n rest total h = absurd (omega (arith, h))
read-digits (suc fuel) n rest total h = elim (Bool-cases (ltb n 10)) [
  | inl one ↦
      let value : 0 * 10 + n ≡ n = omega arith in
      rw one (read-digit n rest total 0 (ground arith) ∙ ap (read rest total) value)
  | inr more ↦
      let small : n / 10 < fuel = ground arith in
      let value : n / 10 * 10 + n % 10 ≡ n = omega arith in
      rw more (
        ap (λ s. read s total 0) (append_assoc (digits fuel (n / 10)) ((b'0' + n % 10) ∷ []) rest)
        ∙ read-digits fuel (n / 10) ((b'0' + n % 10) ∷ rest) total small
        ∙ read-digit (n % 10) rest total (n / 10) (omega arith)
        ∙ ap (read rest total) value)
]

read-to_text :
    (n : ℕ) (rest : List ℕ) (total : ℕ) → read (to_text n ++ rest) total 0 ≡ read rest total n
read-to_text n rest total = read-digits (n + 1) n rest total (omega arith)

read-pad_two :
    (s rest : List ℕ) (total : ℕ) → read (pad_two s ++ rest) total 0 ≡ read (s ++ rest) total 0
read-pad_two [] rest total = refl
read-pad_two (c ∷ []) rest total = read-digit 0 (c ∷ rest) total 0 (omega arith)
read-pad_two (c ∷ d ∷ s) rest total = refl

read-field :
    (n : ℕ) (rest : List ℕ) (total : ℕ)
    → read (pad_two (to_text n) ++ rest) total 0 ≡ read rest total n
read-field n rest total = read-pad_two (to_text n) rest total ∙ read-to_text n rest total

read-colon :
    (rest : List ℕ) (total field : ℕ)
    → read (colon ∷ rest) total field ≡ read rest (total * 60 + field) 0
read-colon rest total field = refl

-- The last field of a clock.
read-last : (n : ℕ) (total : ℕ) → read (pad_two (to_text n)) total 0 ≡ total * 60 + n
read-last n total =
    ap (λ s. read s total 0) (sym (append-nil (pad_two (to_text n)))) ∙ read-field n [] total

-- Every position of the player is written so that the clock, read with each colon beginning the next
-- sixtieth, says its whole seconds.
pub read-format_time : (us : ℕ) → read (format_time (some us)) 0 0 ≡ us / 1000000
unfolding format_time
read-format_time us =
    let s = us / 1000000 in
    elim (Bool-cases (s / 3600 == 0)) [
      | inl short ↦ rw short (
          read-to_text (s % 3600 / 60) (colon ∷ pad_two (to_text (s % 60))) 0
          ∙ read-colon (pad_two (to_text (s % 60))) 0 (s % 3600 / 60)
          ∙ read-last (s % 60) (0 * 60 + s % 3600 / 60)
          ∙ (ground arith))
      | inr long ↦ rw long (
          read-to_text (s / 3600)
            (colon ∷ (pad_two (to_text (s % 3600 / 60)) ++ colon ∷ pad_two (to_text (s % 60)))) 0
          ∙ read-colon (pad_two (to_text (s % 3600 / 60)) ++ colon ∷ pad_two (to_text (s % 60))) 0
              (s / 3600)
          ∙ read-field (s % 3600 / 60) (colon ∷ pad_two (to_text (s % 60))) (0 * 60 + s / 3600)
          ∙ read-colon (pad_two (to_text (s % 60))) (0 * 60 + s / 3600) (s % 3600 / 60)
          ∙ read-last (s % 60) ((0 * 60 + s / 3600) * 60 + s % 3600 / 60)
          ∙ (omega arith))
    ]

long_film : format_time (some 3723500000) ≡ b'1' ∷ colon ∷ b'0' ∷ b'2' ∷ colon ∷ b'0' ∷ b'3' ∷ []
unfolding format_time digits
long_film = refl
