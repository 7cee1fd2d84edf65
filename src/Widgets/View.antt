-- ===== src/Widgets/View.antt =====
-- frontend/src/components/ui/Segmented.tsx, frontend/src/components/ui/LangToggle.tsx and
-- frontend/src/hooks/useIsMobile.ts: a row of tabs, the switch of the language, and the width of the window.
use syncwatch.Shared.{
  ℕ, suc, ◌≡◌, ◌≢◌, refl, ap, subst, String, Bool, not, Bool-cases, inl, inr, true, false, Option,
  List, [], ◌∷◌, map, filter, length, any, All, Distinct, leb, str_eq, arith, eq_iff, if◌then◌else◌,
}
use syncwatch.I18n.{Lang, en, pl, lang_text}

-- `SegmentedItem`
pub record Item : Type 0 where
  pub value : String
  pub label : String
  pub count : Option ℕ

-- A tab; the Tab key reaches the one that is selected.
pub record TabButton : Type 0 where
  pub key : String
  pub label : String
  pub count : Option ℕ
  pub is_selected : Bool
  pub is_reached : Bool

abbrev pub tab_button : (value : String) → Item → TabButton
tab_button value item = record {
  key = item.value;
  label = item.label;
  count = item.count;
  is_selected = str_eq value item.value;
  is_reached = str_eq value item.value;
}

-- `Segmented`
unfoldable pub segmented : (value : String) → List Item → List TabButton
segmented value items = map (tab_button value) items

abbrev pub values : List Item → List String
values [] = []
values (i ∷ items) = i.value ∷ values items

none-selected :
    (value : String) (items : List Item)
    → All (λ v. v ≢ value) (values items)
    → length (filter (λ b. b.is_selected) (map (tab_button value) items)) ≡ 0
none-selected value [] h = refl
none-selected value (i ∷ items) h =
    let other : str_eq value i.value ≡ false = ground (arith, eq_iff value i.value, h.0) in
    rw other (none-selected value items h.1)

-- Of tabs with different values, one of which is the value, just one is selected.
pub one_selected :
    (value : String) (items : List Item)
    → Distinct (values items)
    → any (str_eq value) (values items) ≡ true
    → length (filter (λ b. b.is_selected) (segmented value items)) ≡ 1
unfolding segmented
one_selected value [] d h = absurd (ground arith)
one_selected value (i ∷ items) d h = elim (Bool-cases (str_eq value i.value)) [
  | inl this ↦
      let same : i.value ≡ value = ground (arith, eq_iff value i.value) in
      let others = subst (λ v. All (λ w. w ≢ v) (values items)) same d.0 in
      rw this (ap suc (none-selected value items others))
  | inr other ↦ rw other (one_selected value items d.1 (ground (arith, other)))
]

-- A button of the switch: its text, and whether it is pressed.
abbrev pub lang_button : (lang value : Lang) → String × Bool
lang_button lang value = (lang_text value, str_eq (lang_text lang) (lang_text value))

-- `LangToggle`; `upper` is `toUpperCase`
unfoldable pub lang_toggle : (upper : String → String) → Lang → List (String × Bool)
lang_toggle upper lang =
    map (λ (b : String × Bool). (upper b.0, b.1)) (lang_button lang en ∷ lang_button lang pl ∷ [])

-- The window, `max-width` holds of its width, and what the hook has seen of it.
pub record Media : Type 0 where
  pub width : ℕ
  pub is_mobile : Bool

-- `mediaQuery.matches`
abbrev pub matches : (breakpoint width : ℕ) → Bool
matches breakpoint width = leb width breakpoint

-- The hook when it is mounted, with its effect.
unfoldable pub init_media : (breakpoint width : ℕ) → Media
init_media breakpoint width = record { width = width; is_mobile = matches breakpoint width }

abbrev pub not_same : Bool → Bool → Bool
not_same true b = not b
not_same false b = b

-- The window gets another width; the browser fires `change` where the query then has another answer.
unfoldable pub on_resize : (breakpoint width : ℕ) → Media → Media
on_resize breakpoint width m =
    let now = matches breakpoint width in
    let changed = not_same (matches breakpoint m.width) now in
    record m { width = width; is_mobile = if changed then now else m.is_mobile }

unfoldable pub resizes : (breakpoint : ℕ) → List ℕ → Media → Media
unfolding on_resize
resizes breakpoint [] m = m
resizes breakpoint (width ∷ widths) m = resizes breakpoint widths (on_resize breakpoint width m)

resizes-kept :
    (breakpoint : ℕ) (widths : List ℕ) (m : Media)
    → m.is_mobile ≡ matches breakpoint m.width
    → let m' = resizes breakpoint widths m in m'.is_mobile ≡ matches breakpoint m'.width
unfolding resizes on_resize
resizes-kept breakpoint [] m h = h
resizes-kept breakpoint (width ∷ widths) m h =
    resizes-kept breakpoint widths (on_resize breakpoint width m) (ground arith)

-- However the window is resized, the answer of the hook is that of the query at its present width.
pub is_mobile_lem :
    (breakpoint width : ℕ) (widths : List ℕ)
    → let m = resizes breakpoint widths (init_media breakpoint width) in
      m.is_mobile ≡ matches breakpoint m.width
unfolding init_media
is_mobile_lem breakpoint width widths =
    resizes-kept breakpoint widths (init_media breakpoint width) refl
