-- ===== src/FileSelector/Releases.antt =====
-- frontend/src/components/room/FileSelector.tsx: each object URL is released once.
use syncwatch.Shared.{
  ℕ, ◌+◌, ◌≤◌, ◌<◌, String, ◌≡◌, refl, ap, ◌∙◌, Bool, true, Option, none, some, List, [], ◌∷◌, ◌++◌,
  arith, All, all, ltb, ◌==◌, is_some, inl, inr, Option-cases,
}
use syncwatch.FileSelector.{Selection, Selector, revoke_pending, on_unmount}
use syncwatch.FileSelector.Urls.{
  one_if, count, held, lookup, IsFresh, Kept, count-append, count-revoke_pending, lookup-none,
  process-Kept, on_hashed-Kept, on_hash_failed-Kept, on_verify_result-Kept,
}
use syncwatch.FileSelector.Events.{
  Event, chooses, hashed, hash_failed, answered, finish, step, run, is_hash,
}
use syncwatch.FileSelector.Late.{IsOld, run-Late}

none_below : (u : ℕ) → one_if (ltb u 0) ≡ 0
none_below u = ground arith

module _ {Handle : Type 0} (lower : String → String) where
  -- While a file is pending, the latest selection is hashed no longer.
  free_pending :
      (nonce : ℕ) (chosen : Selection Handle) (s : Selector Handle)
      → some chosen ≡ lookup nonce s.in_flight
      → IsFresh s
      → nonce == s.request_nonce ≡ true
      → s.pending ≡ none
  free_pending nonce chosen s e h n = elim (Option-cases s.pending) [
    | inl none_there ↦ none_there
    | inr (p, there) ↦
        let gone = lookup-none s.request_nonce s.in_flight (h.single (ap is_some there)) in
        let same : nonce ≡ s.request_nonce = ground arith in
        absurd (ground (arith, e ∙ ap (λ k. lookup k s.in_flight) same ∙ gone))
  ]

  finish-Kept :
      (u : ℕ) (o : Option (Selection Handle)) (accepted : Bool) (nonce : ℕ) (hash : String)
      (duration_ms : ℕ) (s : Selector Handle)
      → o ≡ lookup nonce s.in_flight
      → IsFresh s
      → Kept u s (finish lower o accepted nonce hash duration_ms s)
  finish-Kept u none accepted nonce hash duration_ms s e h = record {
    fresh = h;
    balance = omega arith;
  }
  finish-Kept u (some chosen) accepted nonce hash duration_ms s e h =
      on_hashed-Kept u accepted nonce chosen hash duration_ms s (free_pending nonce chosen s e h) h

  pub step-Kept :
      (u : ℕ) (e : Event Handle) (s : Selector Handle) → IsFresh s → Kept u s (step lower e s)
  step-Kept u (chooses chosen) s h = process-Kept u chosen s h
  step-Kept u (hashed accepted nonce hash duration_ms) s h =
      finish-Kept u (lookup nonce s.in_flight) accepted nonce hash duration_ms s refl h
  step-Kept u (hash_failed nonce) s h = on_hash_failed-Kept u nonce s h
  step-Kept u (answered result) s h = on_verify_result-Kept u lower result s h

  run-Kept :
      (u : ℕ) (es : List (Event Handle)) (s : Selector Handle)
      → IsFresh s
      → Kept u s (run lower es s)
  unfolding run
  run-Kept u [] s h = record { fresh = h; balance = omega arith }
  run-Kept u (e ∷ es) s h =
      let k = step-Kept u e s h in
      let later = run-Kept u es (step lower e s).0 k.fresh in
      record {
        fresh = later.fresh;
        balance = omega (
          arith,
          k.balance,
          later.balance,
          count-append u (step lower e s).1 (run lower es (step lower e s).0).1,
        );
      }

  All-below :
      (n : ℕ) (rs : List (ℕ × Selection Handle)) → All (λ r. r.0 ≤ n) rs → All (λ r. r.0 < n + 1) rs
  All-below n [] h = tt
  All-below n (r ∷ rs) h = (omega (arith, h.0), All-below n rs h.1)

  on_unmount-IsOld : (s : Selector Handle) → IsFresh s → IsOld (on_unmount s).0
  unfolding on_unmount
  on_unmount-IsOld s h = All-below s.request_nonce s.in_flight h.given

  count-on_unmount :
      (u : ℕ) (s : Selector Handle) → count u ((on_unmount s).1 ++ []) ≡ held u s.pending
  unfolding on_unmount
  count-on_unmount u s =
      omega (arith, count-append u (revoke_pending s.pending) [], count-revoke_pending u s.pending)

  created-on_unmount : (s : Selector Handle) → (on_unmount s).0.created ≡ s.created
  unfolding on_unmount
  created-on_unmount s = refl

  -- From a selector that has created no URL, through any sequence of choices, hashes and answers of the
  -- server, the unmounting, and whatever hashes are there only after it, each URL that was created is
  -- revoked or handed over, exactly once, and no other URL is; and the late hashes create none.
  pub released_once :
      (u : ℕ) (es late : List (Event Handle)) (s : Selector Handle)
      → IsFresh s
      → s.pending ≡ none
      → s.created ≡ 0
      → all is_hash late ≡ true
      → let (s', calls) = run lower es s in
        let (gone, last) = on_unmount s' in
        let (end, more) = run lower late gone in
        (count u (calls ++ (last ++ more)) ≡ one_if (ltb u s'.created)) × (end.created ≡ s'.created)
  released_once u es late s h p c a =
      let k = run-Kept u es s h in
      let s' = (run lower es s).0 in
      let l = run-Late lower late (on_unmount s').0 a (on_unmount-IsOld s' k.fresh) in
      let below : one_if (ltb u s.created) ≡ 0 = ap (λ n. one_if (ltb u n)) c ∙ none_below u in
      let tail : count u ((on_unmount s').1 ++ (run lower late (on_unmount s').0).1)
          ≡ held u s'.pending =
        rw l.quiet (count-on_unmount u s') in
      (
        omega (
          arith,
          k.balance,
          ap (held u) p,
          below,
          count-append u (run lower es s).1
              ((on_unmount s').1 ++ (run lower late (on_unmount s').0).1),
          tail,
        ),
        l.kept ∙ created-on_unmount s',
      )
