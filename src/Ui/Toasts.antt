-- ===== src/Ui/Toasts.antt =====
-- frontend/src/contexts/UiContext.tsx: toasts and their timers.
use syncwatch.Shared.{
  ℕ, ◌+◌, ◌≤◌, ◌<◌, ◌≡◌, refl, sym, ap, ◌∙◌, subst, ◌≢◌, inl, inr, not, List, [], ◌∷◌, ◌++◌, arith,
  leb, ◌==◌, All, All-append, Distinct, filter, tail, length, length-append, length-filter-le,
  if◌then◌else◌, Bool-cases,
}
use syncwatch.Session.{ToastOptions}
use syncwatch.Ui.{
  Ui, ToastRecord, delete_timer, set_timer, dismiss_toast, push_toast, overflow, clear_overflow,
  is_toast,
}

abbrev pub ids : List ToastRecord → List ℕ
ids [] = []
ids (t ∷ ts) = t.id ∷ ids ts

abbrev pub keys : List (ℕ × ℕ) → List ℕ
keys [] = []
keys ((k, t) ∷ ts) = k ∷ keys ts

-- At most four toasts are shown, their ids are distinct and were given out, and the toasts that have a
-- timer are exactly those that are shown.
pub record IsTidy (u : Ui) : Type 0 where
  pub few : length u.toasts ≤ 4
  pub given : All (λ i. i < u.toast_counter) (ids u.toasts)
  pub distinct : Distinct (ids u.toasts)
  pub timed : keys u.toast_timers ≡ ids u.toasts

without : ℕ → List ℕ → List ℕ
without n = filter (λ k. not (k == n))

keys-delete : (n : ℕ) (ts : List (ℕ × ℕ)) → keys (delete_timer n ts) ≡ without n (keys ts)
unfolding without
keys-delete n [] = refl
keys-delete n ((k, t) ∷ ts) = ground (arith, keys-delete n ts)

ids-filter :
    (n : ℕ) (ts : List ToastRecord) → ids (filter (λ t. not (is_toast n t)) ts) ≡ without n (ids ts)
unfolding without
ids-filter n [] = refl
ids-filter n (t ∷ ts) = ground (arith, ids-filter n ts)

All-without {κ} : (P : ℕ → Type κ) (n : ℕ) (ks : List ℕ) → All P ks → All P (without n ks)
unfolding without
All-without P n [] h = tt
All-without P n (k ∷ ks) h = elim (Bool-cases (k == n)) [
  | inl e ↦ rw e (All-without P n ks h.1)
  | inr e ↦ rw e (h.0, All-without P n ks h.1)
]

Distinct-without : (n : ℕ) (ks : List ℕ) → Distinct ks → Distinct (without n ks)
unfolding without
Distinct-without n [] h = tt
Distinct-without n (k ∷ ks) h = elim (Bool-cases (k == n)) [
  | inl e ↦ rw e (Distinct-without n ks h.1)
  | inr e ↦ rw e (All-without _ n ks h.0, Distinct-without n ks h.1)
]

without_absent : (n : ℕ) (ks : List ℕ) → All (λ y. y ≢ n) ks → without n ks ≡ ks
unfolding without
without_absent n [] h = refl
without_absent n (k ∷ ks) h = ground (arith, h.0, without_absent n ks h.1)

without_head : (n : ℕ) (ks : List ℕ) → All (λ y. y ≢ n) ks → without n (n ∷ ks) ≡ ks
unfolding without
without_head n ks h = ground (arith, without_absent n ks h)

keys-set_timer :
    (n t : ℕ) (ts : List (ℕ × ℕ))
    → All (λ y. y ≢ n) (keys ts)
    → keys (set_timer n t ts) ≡ keys ts ++ n ∷ []
keys-set_timer n t [] h = refl
keys-set_timer n t ((k, s) ∷ ts) h = ground (arith, h.0, keys-set_timer n t ts h.1)

dismiss_toast-IsTidy : (n : ℕ) (u : Ui) → IsTidy u → IsTidy (dismiss_toast n u).0
unfolding dismiss_toast
dismiss_toast-IsTidy n u h = record {
  few = omega (arith, h.few, length-filter-le (λ t. not (is_toast n t)) u.toasts);
  given = rw (ids-filter n u.toasts) (All-without _ n (ids u.toasts) h.given);
  distinct = rw (ids-filter n u.toasts) (Distinct-without n (ids u.toasts) h.distinct);
  timed = keys-delete n u.toast_timers ∙ ap (without n) h.timed ∙ sym (ids-filter n u.toasts);
}

-- What is kept of the toasts when one more is pushed, with the timers that are kept.
record Room (c : ℕ) (kept : List ToastRecord) (timers : List (ℕ × ℕ)) : Type 0 where
  few : length kept ≤ 3
  given : All (λ i. i < c) (ids kept)
  distinct : Distinct (ids kept)
  timed : keys timers ≡ ids kept

make-Room :
    (c : ℕ) (ts : List ToastRecord) (timers : List (ℕ × ℕ))
    → length ts ≤ 4
    → All (λ i. i < c) (ids ts)
    → Distinct (ids ts)
    → keys timers ≡ ids ts
    → Room c (if leb 4 (length ts) then tail ts else ts) (clear_overflow (overflow ts) timers)
unfolding clear_overflow
make-Room c [] timers few given distinct timed = record {
  few = omega arith;
  given = tt;
  distinct = tt;
  timed = timed;
}
make-Room c (t ∷ ts) timers few given distinct timed = elim (Bool-cases (leb 4 (length (t ∷ ts)))) [
  | inl full ↦ rw full (record {
    few = omega arith;
    given = given.1;
    distinct = distinct.1;
    timed =
        keys-delete t.id timers ∙ ap (without t.id) timed ∙ without_head t.id (ids ts) distinct.0;
  })
  | inr free ↦
      rw free (record { few = ground arith; given = given; distinct = distinct; timed = timed })
]

All-mono :
    (c : ℕ) (ks : List ℕ) → All (λ i. i < c) ks → All (λ i. i < c + 1) ks × All (λ y. y ≢ c) ks
All-mono c [] h = (tt, tt)
All-mono c (k ∷ ks) h =
    let (a, b) = All-mono c ks h.1 in ((omega (arith, h.0), a), (omega (arith, h.0), b))

ids-append : (ts : List ToastRecord) (t : ToastRecord) → ids (ts ++ t ∷ []) ≡ ids ts ++ t.id ∷ []
ids-append [] t = refl
ids-append (x ∷ ts) t = ap (◌∷◌ x.id) (ids-append ts t)

Distinct-append :
    (n : ℕ) (ks : List ℕ) → Distinct ks → All (λ y. y ≢ n) ks → Distinct (ks ++ n ∷ [])
Distinct-append n [] d h = (tt, tt)
Distinct-append n (k ∷ ks) d h =
    (All-append (λ y. y ≢ k) ks (n ∷ []) d.0 ((λ e. h.0 (sym e)), tt), Distinct-append n ks d.1 h.1)

-- The new toast and its timer join what is kept.
join-IsTidy :
    (u : Ui) (c timer : ℕ) (kept : List ToastRecord) (timers : List (ℕ × ℕ)) (t : ToastRecord)
    → t.id ≡ c
    → Room c kept timers
    → IsTidy (record u {
      toast_counter = c + 1;
      toasts = kept ++ t ∷ [];
      toast_timers = set_timer c timer timers;
    })
join-IsTidy u c timer kept timers t e r =
    let (below, fresh) = All-mono c (ids kept) r.given in
    let shown : ids (kept ++ t ∷ []) ≡ ids kept ++ c ∷ [] =
      ids-append kept t ∙ ap (λ n. ids kept ++ n ∷ []) e in
    record {
      few = omega (arith, length-append kept (t ∷ []), r.few);
      given = rw shown (All-append (λ i. i < c + 1) (ids kept) (c ∷ []) below (omega arith, tt));
      distinct = rw shown (Distinct-append c (ids kept) r.distinct fresh);
      timed =
          keys-set_timer c timer timers (subst (All (λ y. y ≢ c)) (sym r.timed) fresh)
          ∙ ap (λ ks. ks ++ c ∷ []) r.timed
          ∙ sym shown;
    }

push_toast-IsTidy :
    (options : ToastOptions) (timer : ℕ) (u : Ui) → IsTidy u → IsTidy (push_toast options timer u).0
unfolding push_toast
push_toast-IsTidy options timer u h =
    join-IsTidy u u.toast_counter timer
      (if leb 4 (length u.toasts) then tail u.toasts else u.toasts)
      (clear_overflow (overflow u.toasts) u.toast_timers) _ refl
      (make-Room u.toast_counter u.toasts u.toast_timers h.few h.given h.distinct h.timed)

-- A toast is pushed, with the id of its timer; or it is dismissed, by its button or by its timer.
pub data ToastEvent : Type 0 where
  pushes : ToastOptions → (timer : ℕ) → ToastEvent
  dismisses : ℕ → ToastEvent

pub run : List ToastEvent → Ui → Ui
run [] u = u
run (pushes options timer ∷ es) u = run es (push_toast options timer u).0
run (dismisses n ∷ es) u = run es (dismiss_toast n u).0

-- Whatever toasts are pushed and dismissed, at most four are shown, no two with one id, and the toasts
-- with a timer are exactly the shown ones, in their order: no timer outlives its toast, and each shown
-- toast will be taken away.
pub run-IsTidy : (es : List ToastEvent) (u : Ui) → IsTidy u → IsTidy (run es u)
unfolding run
run-IsTidy [] u h = h
run-IsTidy (pushes options timer ∷ es) u h = run-IsTidy es _ (push_toast-IsTidy options timer u h)
run-IsTidy (dismisses n ∷ es) u h = run-IsTidy es _ (dismiss_toast-IsTidy n u h)
