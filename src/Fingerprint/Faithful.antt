-- ===== src/Fingerprint/Faithful.antt =====
-- frontend/src/utils/fileHash.ts: what two files with one hash have in common.
use syncwatch.Shared.{
  ℕ, zero, suc, ◌+◌, ◌-◌, ◌*◌, ◌/◌, ◌%◌, ◌^◌, ◌≤◌, ◌<◌, ◌≡◌, refl, sym, ap, ◌∙◌, List, [], ◌∷◌,
  ◌++◌, All, true, false, inl, inr, Bool-cases, ltb, leb, length, length-append, length-take,
  length-drop, append-split, append-split_end, append_assoc, drop, arith, if◌then◌else◌,
}
use syncwatch.Fingerprint.{
  chunk_size, big_endian, window, middle_start, combined_with, combined, hex_digit, to_string_16,
  pad_start_2, hex, compute_file_hash,
}

-- The number fits into this many bytes.
Fits : (count n : ℕ) → Type 0
Fits zero n = n ≡ 0
Fits (suc count) n = Fits count (n / 256)

length-big_endian : (count n : ℕ) → length (big_endian count n) ≡ count
unfolding big_endian
length-big_endian zero n = refl
length-big_endian (suc count) n = omega (
  arith,
  length-append (big_endian count (n / 256)) (n % 256 ∷ []),
  length-big_endian count (n / 256),
)

head_eq : (a b : ℕ) → ◌≡◌ {A = List ℕ} (a ∷ []) (b ∷ []) → a ≡ b
head_eq a b e = cc

big_endian-inj :
    (count n m : ℕ) → Fits count n → Fits count m → big_endian count n ≡ big_endian count m → n ≡ m
unfolding big_endian Fits
big_endian-inj zero n m f g e = f ∙ sym g
big_endian-inj (suc count) n m f g e =
    let (high, low) =
      append-split_end (big_endian count (n / 256)) (big_endian count (m / 256)) (n % 256 ∷ [])
        (m % 256 ∷ []) refl e in
    omega
      (arith, big_endian-inj count (n / 256) (m / 256) f g high, head_eq (n % 256) (m % 256) low)

Fits-u64 : (n : ℕ) → n < 2 ^ 64 → Fits 8 n
unfolding Fits
Fits-u64 n h = omega arith

hex_digit-inj : (a b : ℕ) → a < 16 → b < 16 → hex_digit a ≡ hex_digit b → a ≡ b
hex_digit-inj a b h k e = ground arith

hex_byte :
    (b : ℕ) → b < 256 → pad_start_2 (to_string_16 b) ≡ hex_digit (b / 16) ∷ hex_digit (b % 16) ∷ []
hex_byte b h = elim (Bool-cases (ltb b 16)) [
  | inl low ↦
      let q : b / 16 ≡ 0 = ground arith in
      let r : b % 16 ≡ b = ground arith in rw low (rw q (rw r refl))
  | inr high ↦ rw high refl
]

pair_eq :
    (a b c d : ℕ) (xs ys : List ℕ)
    → ◌≡◌ {A = List ℕ} (a ∷ b ∷ xs) (c ∷ d ∷ ys)
    → (a ≡ c) × (b ≡ d) × (xs ≡ ys)
pair_eq a b c d xs ys e = (cc, cc, cc)

byte_eq : (a b : ℕ) → a / 16 ≡ b / 16 → a % 16 ≡ b % 16 → a ≡ b
byte_eq a b e f = omega arith

hex-inj :
    (xs ys : List ℕ) → All (λ b. b < 256) xs → All (λ b. b < 256) ys → hex xs ≡ hex ys → xs ≡ ys
unfolding hex
hex-inj [] [] h k e = refl
hex-inj [] (y ∷ ys) h k e =
    absurd (omega (arith, ap length (e ∙ ap (λ p. p ++ hex ys) (hex_byte y k.0))))
hex-inj (x ∷ xs) [] h k e =
    absurd (omega (arith, ap length (sym e ∙ ap (λ p. p ++ hex xs) (hex_byte x h.0))))
hex-inj (x ∷ xs) (y ∷ ys) h k e =
    let e' : ◌≡◌ {A = List ℕ} (hex_digit (x / 16) ∷ hex_digit (x % 16) ∷ hex xs)
        (hex_digit (y / 16) ∷ hex_digit (y % 16) ∷ hex ys) =
      ap (λ p. p ++ hex xs) (sym (hex_byte x h.0)) ∙ e ∙ ap (λ p. p ++ hex ys) (hex_byte y k.0) in
    let (p, q, r) = pair_eq _ _ _ _ (hex xs) (hex ys) e' in
    let same : x ≡ y =
      byte_eq x y (hex_digit-inj (x / 16) (y / 16) (omega (arith, h.0)) (omega (arith, k.0)) p)
        (hex_digit-inj (x % 16) (y % 16) (omega arith) (omega arith) q) in
    let rest = hex-inj xs ys h.1 k.1 r in rw same (ap (◌∷◌ y) rest)

-- What is hashed before the size.
body : (chunk : ℕ) → List ℕ → List ℕ
body chunk file =
    if leb (length file) (chunk * 3)
    then file
    else window 0 chunk file
      ++ (window (middle_start file) chunk file ++ window (length file - chunk) chunk file)

combined_with-body :
    (chunk : ℕ) (file : List ℕ)
    → combined_with chunk file ≡ body chunk file ++ big_endian 8 (length file)
unfolding combined_with body
combined_with-body chunk file = elim (Bool-cases (leb (length file) (chunk * 3))) [
  | inl small ↦ rw small refl
  | inr large ↦ rw large (simp append_assoc)
]

length-window :
    (from count : ℕ) (file : List ℕ)
    → from + count ≤ length file
    → length (window from count file) ≡ count
length-window from count file h =
    length-take count (drop from file) (omega (arith, h, length-drop from file (omega (arith, h))))

body-small : (chunk : ℕ) (file : List ℕ) → length file ≤ chunk * 3 → body chunk file ≡ file
unfolding body
body-small chunk file h =
    let small : leb (length file) (chunk * 3) ≡ true = ground arith in rw small refl

body-large :
    (chunk : ℕ) (file : List ℕ)
    → chunk * 3 < length file
    → body chunk file
      ≡ window 0 chunk file
        ++ (window (middle_start file) chunk file ++ window (length file - chunk) chunk file)
unfolding body
body-large chunk file h =
    let large : leb (length file) (chunk * 3) ≡ false = ground arith in rw large refl

-- The first, the middle and the last chunk are the same.
abbrev pub SameWindows : (chunk : ℕ) → List ℕ → List ℕ → Type 0
SameWindows chunk f g =
    (window 0 chunk f ≡ window 0 chunk g)
    × (window (middle_start f) chunk f ≡ window (middle_start g) chunk g)
    × (window (length f - chunk) chunk f ≡ window (length g - chunk) chunk g)

body_windows :
    (chunk : ℕ) (f g : List ℕ)
    → length f ≡ length g
    → chunk * 3 < length f
    → body chunk f ≡ body chunk g
    → SameWindows chunk f g
body_windows chunk f g l h e =
    let e' = sym (body-large chunk f h) ∙ e ∙ body-large chunk g (omega (arith, h, l)) in
    let (first, rest) =
      append-split (window 0 chunk f) (window 0 chunk g) _ _
        (length-window 0 chunk f (omega (arith, h))
          ∙ sym (length-window 0 chunk g (omega (arith, h, l))))
        e' in
    let (middle, last) =
      append-split (window (middle_start f) chunk f) (window (middle_start g) chunk g) _ _
        (length-window (middle_start f) chunk f (omega (arith, h))
          ∙ sym (length-window (middle_start g) chunk g (omega (arith, h, l))))
        rest in
    (first, middle, last)

combined_lem :
    (chunk : ℕ) (f g : List ℕ)
    → length f < 2 ^ 64
    → length g < 2 ^ 64
    → combined_with chunk f ≡ combined_with chunk g
    → (length f ≡ length g)
      × (length f ≤ chunk * 3 → f ≡ g)
      × (chunk * 3 < length f → SameWindows chunk f g)
combined_lem chunk f g hf hg e =
    let (bodies, sizes) =
      append-split_end (body chunk f) (body chunk g) (big_endian 8 (length f))
        (big_endian 8 (length g))
        (length-big_endian 8 (length f) ∙ sym (length-big_endian 8 (length g)))
        (sym (combined_with-body chunk f) ∙ e ∙ combined_with-body chunk g) in
    let same = big_endian-inj 8 (length f) (length g) (Fits-u64 _ hf) (Fits-u64 _ hg) sizes in
    (
      same,
      λ small.
          sym (body-small chunk f small) ∙ bodies ∙ body-small chunk g (omega (arith, small, same)),
      λ large. body_windows chunk f g same large bodies,
    )

-- Where the digest gives bytes and does not collide on what is hashed of two files below 2 ^ 64 bytes,
-- equal hashes mean that the files have one size, are equal if they have at most three chunks of 1 MiB,
-- and agree in their first, middle and last chunk if they have more.
pub same_hash :
    (digest : List ℕ → List ℕ) (f g : List ℕ)
    → ((xs : List ℕ) → All (λ b. b < 256) (digest xs))
    → (digest (combined f) ≡ digest (combined g) → combined f ≡ combined g)
    → length f < 2 ^ 64
    → length g < 2 ^ 64
    → compute_file_hash digest f ≡ compute_file_hash digest g
    → (length f ≡ length g)
      × (length f ≤ chunk_size * 3 → f ≡ g)
      × (chunk_size * 3 < length f → SameWindows chunk_size f g)
unfolding compute_file_hash
same_hash digest f g bytes free hf hg e = combined_lem chunk_size f g hf hg (
    free (
      hex-inj (digest (combined f)) (digest (combined g)) (bytes (combined f)) (bytes (combined g))
        e))
