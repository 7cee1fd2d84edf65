-- ===== src/I18n/Placeholders.antt =====
-- frontend/src/i18n/dict.ts: the placeholders of the texts.
use mathlib.Core.Option
use Prim.Native.Char.{code}
use Prim.Native.String.{String, ◌++◌ as append}
use syncwatch.Shared.{
  ◌≡◌, refl, ap, Bool, Bool-cases, inl, inr, true, false, ◌&&◌, Option, none, some, List, [], ◌∷◌,
  eq_iff, arith, str_eq, if◌then◌else◌, ◌==◌,
}
use syncwatch.I18n.{en, pl, Dict, dict, lookup, is_word, not_empty, interpolate, scan}

-- The names of the placeholders of a text, in order; `word` is what stands since an opening brace.
names : (word : Option String) → String → List String
names word String.[] = []
names none (String.◌∷◌ c s) =
    let opened = names (some "") s in
    let plain = names none s in if code c == b'{' then opened else plain
names (some word) (String.◌∷◌ c s) =
    let opened = names (some "") s in
    let plain = names none s in
    let longer = names (some (append word (String.◌∷◌ c String.[]))) s in
    if is_word (code c)
    then longer
    else if code c == b'{'
    then opened
    else if code c == b'}' && not_empty word
    then word ∷ plain
    else plain

unfoldable pub placeholders : String → List String
unfolding names
placeholders text = names none text

abbrev pub same_names : List String → List String → Bool
same_names [] [] = true
same_names (x ∷ xs) (y ∷ ys) = str_eq x y && same_names xs ys
same_names _ _ = false

-- The same keys in the same order, with the same placeholders.
abbrev pub agree : Dict → Dict → Bool
agree [] [] = true
agree ((k, s) ∷ d) ((k', s') ∷ d') =
    str_eq k k' && same_names (placeholders s) (placeholders s') && agree d d'
agree _ _ = false

same_names_eq : (xs ys : List String) → same_names xs ys ≡ true → xs ≡ ys
same_names_eq [] [] h = refl
same_names_eq [] (y ∷ ys) h = absurd (ground arith)
same_names_eq (x ∷ xs) [] h = absurd (ground arith)
same_names_eq (x ∷ xs) (y ∷ ys) h =
    let head : x ≡ y = (eq_iff x y).0 (ground arith) in
    let rest : xs ≡ ys = same_names_eq xs ys (ground arith) in rw head (ap (◌∷◌ y) rest)

-- The placeholders of a key's text.
abbrev pub placeholders_of : String → Dict → Option (List String)
placeholders_of key d = Option.map placeholders (lookup key d)

agree_lem :
    (key : String) (d d' : Dict)
    → agree d d' ≡ true
    → placeholders_of key d ≡ placeholders_of key d'
agree_lem key [] [] h = refl
agree_lem key [] (e ∷ d') h = absurd (ground arith)
agree_lem key (e ∷ d) [] h = absurd (ground arith)
agree_lem key ((k, s) ∷ d) ((k', s') ∷ d') h =
    let same : k ≡ k' = (eq_iff k k').0 (ground arith) in
    let texts : placeholders s ≡ placeholders s' =
      same_names_eq (placeholders s) (placeholders s') (ground arith) in
    let rest = agree_lem key d d' (ground arith) in
    elim (Bool-cases (str_eq k' key)) [
      | inl here ↦ rw same (rw here (ap some texts))
      | inr later ↦ rw same (rw later rest)
    ]

dicts_agree : agree (dict en) (dict pl) ≡ true
unfolding placeholders names
dicts_agree = refl

-- A key has a text in both languages or in neither, and the two texts have the same placeholders, in the
-- same order.
pub every_text_translated :
    (key : String) → placeholders_of key (dict en) ≡ placeholders_of key (dict pl)
every_text_translated key = agree_lem key (dict en) (dict pl) dicts_agree

hostaway : interpolate "within {n}s, {" (λ name. some "7") ≡ "within 7s, {"
unfolding interpolate scan
hostaway = refl
