-- ===== src/Ui/Confirm.antt =====
-- frontend/src/contexts/UiContext.tsx: the promises of `confirm`.
use syncwatch.Shared.{
  ℕ, ◌+◌, ◌≡◌, refl, Bool, false, Option, none, some, List, [], ◌∷◌, ◌++◌, arith, Bool-cases, inl,
  inr, ◌==◌, is_some, if◌then◌else◌,
}
use syncwatch.Ui.{Ui, ConfirmConfig, answer, resolve_confirm, confirm, on_escape, on_unmount}

pub data ConfirmEvent : Type 0 where
  asks : ConfirmConfig → (promise : ℕ) → ConfirmEvent
  answers : Bool → ConfirmEvent
  escapes : ConfirmEvent

abbrev pub step : ConfirmEvent → Ui → Ui × List (ℕ × Bool)
step (asks config promise) u = confirm config promise u
step (answers value) u = resolve_confirm value u
step escapes u = on_escape u

pub run : List ConfirmEvent → Ui → Ui × List (ℕ × Bool)
run [] u = (u, [])
run (e ∷ es) u = let (u', out) = step e u in let (u'', more) = run es u' in (u'', out ++ more)

-- How often a promise is asked for, and how often it is answered.
abbrev pub asked : ℕ → List ConfirmEvent → ℕ
asked p [] = 0
asked p (asks config q ∷ es) = (if q == p then 1 else 0) + asked p es
asked p (_ ∷ es) = asked p es

abbrev pub answered : ℕ → List (ℕ × Bool) → ℕ
answered p [] = 0
answered p ((q, value) ∷ out) = (if q == p then 1 else 0) + answered p out

abbrev pub waiting : ℕ → Option ℕ → ℕ
waiting p none = 0
waiting p (some q) = if q == p then 1 else 0

-- The dialog is open just while a promise waits.
abbrev pub IsShown : Ui → Type 0
IsShown u = is_some u.confirm_request ≡ is_some u.confirm_resolver

answered-append :
    (p : ℕ) (xs ys : List (ℕ × Bool)) → answered p (xs ++ ys) ≡ answered p xs + answered p ys
answered-append p [] ys = omega arith
answered-append p ((q, v) ∷ xs) ys = ground (arith, answered-append p xs ys)

answered-answer : (p : ℕ) (o : Option ℕ) (v : Bool) → answered p (answer o v) ≡ waiting p o
answered-answer p none v = refl
answered-answer p (some q) v = ground arith

step-balance :
    (p : ℕ) (e : ConfirmEvent) (u : Ui)
    → IsShown u
    → (answered p (step e u).1 + waiting p (step e u).0.confirm_resolver
        ≡ asked p (e ∷ []) + waiting p u.confirm_resolver)
      × IsShown (step e u).0
unfolding confirm resolve_confirm on_escape
step-balance p (asks config q) u h =
    (ground (arith, answered-answer p u.confirm_resolver false), refl)
step-balance p (answers value) u h =
    (ground (arith, answered-answer p u.confirm_resolver value), refl)
step-balance p escapes u h = elim (Bool-cases (is_some u.confirm_request)) [
  | inl shown ↦ rw shown (ground (arith, answered-answer p u.confirm_resolver false), refl)
  | inr hidden ↦ rw hidden (refl, h)
]

asked-cons :
    (p : ℕ) (e : ConfirmEvent) (es : List ConfirmEvent)
    → asked p (e ∷ es) ≡ asked p (e ∷ []) + asked p es
asked-cons p (asks config q) es = omega arith
asked-cons p (answers value) es = omega arith
asked-cons p escapes es = omega arith

-- Each promise of `confirm` is answered exactly as often as it was asked for, but for the one that
-- waits; and the dialog is open just while one waits. So no caller waits for ever behind another.
pub run-balance :
    (p : ℕ) (es : List ConfirmEvent) (u : Ui)
    → IsShown u
    → (answered p (run es u).1 + waiting p (run es u).0.confirm_resolver
        ≡ asked p es + waiting p u.confirm_resolver)
      × IsShown (run es u).0
unfolding run
run-balance p [] u h = (omega arith, h)
run-balance p (e ∷ es) u h =
    let (here, shown) = step-balance p e u h in
    let (later, still) = run-balance p es (step e u).0 shown in
    (
      omega (
        arith,
        here,
        later,
        asked-cons p e es,
        answered-append p (step e u).1 (run es (step e u).0).1,
      ),
      still,
    )

-- Where no promise waits at first: however confirmations are asked for, answered and escaped, by the time
-- that the provider has gone away each promise has been answered exactly as often as it was asked for; and up
-- to then the dialog is open just while a promise waits.
pub all_answered :
    (p : ℕ) (es : List ConfirmEvent) (u : Ui)
    → u.confirm_resolver ≡ none
    → u.confirm_request ≡ none
    → let (u', out) = run es u in
      let (gone, timers, last) = on_unmount u' in
      (answered p (out ++ last) ≡ asked p es) × IsShown u'
unfolding on_unmount
all_answered p es u r q =
    let shown : IsShown u = rw r (rw q refl) in
    let (sums, still) = run-balance p es u shown in
    let nothing : waiting p u.confirm_resolver ≡ 0 = rw r refl in
    let (u', out) = run es u in
    (
      omega (
        arith,
        sums,
        nothing,
        answered-append p out (answer u'.confirm_resolver false),
        answered-answer p u'.confirm_resolver false,
      ),
      still,
    )
