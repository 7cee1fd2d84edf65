-- ===== src/FileSelector/Late.antt =====
-- frontend/src/components/room/FileSelector.tsx: hashes that are there only after the selector is gone.
use syncwatch.Shared.{
  ℕ, ◌<◌, String, ◌≡◌, refl, ◌∙◌, Bool, true, false, Option, none, some, List, [], ◌∷◌, arith, All,
  all, ◌==◌, inl, inr, Bool-cases,
}
use syncwatch.FileSelector.{Selection, Selector, Run, on_hashed, on_hash_failed}
use syncwatch.FileSelector.Urls.{lookup, All-settle}
use syncwatch.FileSelector.Events.{
  Event, chooses, hashed, hash_failed, answered, finish, step, run, is_hash,
}

module _ {Handle : Type 0} where
  -- Every selection that is hashed is an old one.
  abbrev pub IsOld : Selector Handle → Type 0
  IsOld s = All (λ r. r.0 < s.request_nonce) s.in_flight

module _ {Handle : Type 0} (lower : String → String) where
  -- What a late hash does: nothing but being noted.
  pub record Late (s : Selector Handle) (run : Run Handle) : Type 0 where
    pub quiet : run.1 ≡ []
    pub old : IsOld run.0
    pub kept : run.0.created ≡ s.created

  lookup-IsOld :
      (nonce n : ℕ) (rs : List (ℕ × Selection Handle)) (chosen : Selection Handle)
      → All (λ r. r.0 < n) rs
      → some chosen ≡ lookup nonce rs
      → nonce < n
  lookup-IsOld nonce n [] chosen h e = ground arith
  lookup-IsOld nonce n ((k, c) ∷ rs) chosen h e = elim (Bool-cases (k == nonce)) [
    | inl same ↦ ground (arith, h.0)
    | inr other ↦ lookup-IsOld nonce n rs chosen h.1 (ground arith)
  ]

  finish-Late :
      (o : Option (Selection Handle)) (accepted : Bool) (nonce : ℕ) (hash : String)
      (duration_ms : ℕ) (s : Selector Handle)
      → o ≡ lookup nonce s.in_flight
      → IsOld s
      → Late s (finish lower o accepted nonce hash duration_ms s)
  unfolding on_hashed
  finish-Late none accepted nonce hash duration_ms s e h = record {
    quiet = refl;
    old = h;
    kept = refl;
  }
  finish-Late (some chosen) accepted nonce hash duration_ms s e h =
      let late = lookup-IsOld nonce s.request_nonce s.in_flight chosen h e in
      let stale : nonce == s.request_nonce ≡ false = ground arith in
      rw stale (record { quiet = refl; old = All-settle _ nonce s.in_flight h; kept = refl })

  step-Late :
      (e : Event Handle) (s : Selector Handle)
      → is_hash e ≡ true
      → IsOld s
      → Late s (step lower e s)
  unfolding on_hash_failed
  step-Late (chooses chosen) s e h = absurd (ground arith)
  step-Late (answered result) s e h = absurd (ground arith)
  step-Late (hashed accepted nonce hash duration_ms) s e h =
      finish-Late (lookup nonce s.in_flight) accepted nonce hash duration_ms s refl h
  step-Late (hash_failed nonce) s e h = elim (Bool-cases (nonce == s.request_nonce)) [
    | inl same ↦
        rw same (record { quiet = refl; old = All-settle _ nonce s.in_flight h; kept = refl })
    | inr other ↦
        rw other (record { quiet = refl; old = All-settle _ nonce s.in_flight h; kept = refl })
  ]

  pub run-Late :
      (es : List (Event Handle)) (s : Selector Handle)
      → all is_hash es ≡ true
      → IsOld s
      → Late s (run lower es s)
  unfolding run
  run-Late [] s e h = record { quiet = refl; old = h; kept = refl }
  run-Late (e ∷ es) s a h =
      let k = step-Late e s (ground arith) h in
      let later = run-Late es (step lower e s).0 (ground arith) k.old in
      record { quiet = rw k.quiet later.quiet; old = later.old; kept = later.kept ∙ k.kept }
