-- ===== src/FileSelector/Urls.antt =====
-- frontend/src/components/room/FileSelector.tsx: the object URLs that the selector creates.
use syncwatch.Shared.{
  ℕ, ◌+◌, ◌≤◌, String, ◌≡◌, ◌≢◌, refl, ap, subst, Bool, true, false, not, Option, none, some, List,
  [], ◌∷◌, ◌++◌, arith, All, filter, ltb, ◌==◌, is_some, inl, inr, Bool-cases, if◌then◌else◌,
}
use syncwatch.Protocol.{FileVerifyResult}
use syncwatch.FileSelector.{
  Selection, Pending, Selector, Call, Run, FileStatus, verifying, verified, revoke, file_verified,
  verify_request, clear_persisted, save_handle, save_blob, is_other_type, is_for_other,
  revoke_pending, persist, settle, process_selected_file, on_hashed, on_hash_failed,
  on_verify_result, answer_pending,
}

abbrev pub one_if : Bool → ℕ
one_if true = 1
one_if false = 0

module _ {Handle : Type 0} where
  -- How often a URL is revoked or handed over.
  abbrev pub count : ℕ → List (Call Handle) → ℕ
  count u [] = 0
  count u (revoke v ∷ calls) = one_if (v == u) + count u calls
  count u (file_verified v ∷ calls) = one_if (v == u) + count u calls
  count u (_ ∷ calls) = count u calls

  abbrev pub held : ℕ → Option (Pending Handle) → ℕ
  held u none = 0
  held u (some p) = one_if (p.url == u)

  abbrev pub lookup : ℕ → List (ℕ × Selection Handle) → Option (Selection Handle)
  lookup nonce [] = none
  lookup nonce ((n, chosen) ∷ rest) = if n == nonce then some chosen else lookup nonce rest

  -- No selection that is hashed is newer than the latest, nor the latest while a file is pending.
  pub record IsFresh (s : Selector Handle) : Type 0 where
    pub given : All (λ r. r.0 ≤ s.request_nonce) s.in_flight
    pub single : is_some s.pending ≡ true → All (λ r. r.0 ≢ s.request_nonce) s.in_flight

  pub record Kept (u : ℕ) (s : Selector Handle) (run : Run Handle) : Type 0 where
    pub fresh : IsFresh run.0
    pub balance :
        count u run.1 + held u run.0.pending + one_if (ltb u s.created)
        ≡ held u s.pending + one_if (ltb u run.0.created)

  pub count-append :
      (u : ℕ) (xs ys : List (Call Handle)) → count u (xs ++ ys) ≡ count u xs + count u ys
  count-append u [] ys = omega arith
  count-append u (revoke v ∷ xs) ys = omega (arith, count-append u xs ys)
  count-append u (file_verified v ∷ xs) ys = omega (arith, count-append u xs ys)
  count-append u (verify_request h n d m ∷ xs) ys = count-append u xs ys
  count-append u (clear_persisted ∷ xs) ys = count-append u xs ys
  count-append u (save_handle v h ∷ xs) ys = count-append u xs ys
  count-append u (save_blob v f ∷ xs) ys = count-append u xs ys

  pub count-revoke_pending :
      (u : ℕ) (o : Option (Pending Handle)) → count u (revoke_pending o) ≡ held u o
  count-revoke_pending u none = refl
  count-revoke_pending u (some p) = omega arith

  count-persist : (u : ℕ) (o : Option ℕ) (c : Selection Handle) → count u (persist o c) ≡ 0
  count-persist u none c = refl
  count-persist u (some v) c = ground arith

  All-later :
      (n : ℕ) (rs : List (ℕ × Selection Handle)) → All (λ r. r.0 ≤ n) rs → All (λ r. r.0 ≤ n + 1) rs
  All-later n [] h = tt
  All-later n (r ∷ rs) h = (omega (arith, h.0), All-later n rs h.1)

  pub All-settle :
      (P : ℕ × Selection Handle → Type 0) (n : ℕ) (rs : List (ℕ × Selection Handle))
      → All P rs
      → All P (filter (λ r. not (r.0 == n)) rs)
  All-settle P n [] h = tt
  All-settle P n (r ∷ rs) h = elim (Bool-cases (r.0 == n)) [
    | inl e ↦ rw e (All-settle P n rs h.1)
    | inr e ↦ rw e (h.0, All-settle P n rs h.1)
  ]

  settled :
      (n : ℕ) (rs : List (ℕ × Selection Handle))
      → All (λ r. r.0 ≢ n) (filter (λ r. not (r.0 == n)) rs)
  settled n [] = tt
  settled n (r ∷ rs) = elim (Bool-cases (r.0 == n)) [
    | inl e ↦ rw e (settled n rs)
    | inr e ↦ rw e (ground arith, settled n rs)
  ]

  pub lookup-none :
      (n : ℕ) (rs : List (ℕ × Selection Handle)) → All (λ r. r.0 ≢ n) rs → lookup n rs ≡ none
  lookup-none n [] h = refl
  lookup-none n ((k, c) ∷ rs) h = ground (arith, lookup-none n rs h.1, h.0)

  pub process-Kept :
      (u : ℕ) (chosen : Selection Handle) (s : Selector Handle)
      → IsFresh s
      → Kept u s (process_selected_file chosen s)
  unfolding process_selected_file
  process-Kept u chosen s h = elim (Bool-cases (is_other_type chosen.file)) [
    | inl e ↦ rw e (record {
      fresh = record {
        given = All-later s.request_nonce s.in_flight h.given;
        single = λ p. absurd (ground arith);
      };
      balance = ground (
        arith,
        count-append u (revoke_pending s.pending) (clear_persisted ∷ []),
        count-revoke_pending u s.pending,
      );
    })
    | inr e ↦ rw e (record {
      fresh = record {
        given = (omega arith, All-later s.request_nonce s.in_flight h.given);
        single = λ p. absurd (ground arith);
      };
      balance = omega (arith, count-revoke_pending u s.pending);
    })
  ]

  settle-IsFresh : (n : ℕ) (s : Selector Handle) → IsFresh s → IsFresh (settle n s)
  settle-IsFresh n s h = record {
    given = All-settle _ n s.in_flight h.given;
    single = λ p. All-settle _ n s.in_flight (h.single p);
  }

  pub on_hashed-Kept :
      (u : ℕ) (accepted : Bool) (nonce : ℕ) (chosen : Selection Handle) (hash : String)
      (duration_ms : ℕ) (s : Selector Handle)
      → (nonce == s.request_nonce ≡ true → s.pending ≡ none)
      → IsFresh s
      → Kept u s (on_hashed accepted nonce chosen hash duration_ms s)
  unfolding on_hashed
  on_hashed-Kept u true nonce chosen hash duration_ms s free h =
      elim (Bool-cases (nonce == s.request_nonce)) [
        | inr e ↦ rw e (record { fresh = settle-IsFresh nonce s h; balance = omega arith })
        | inl e ↦ rw e (record {
          fresh = record {
            given = All-settle _ nonce s.in_flight h.given;
            single = λ p.
                subst (λ n. All (λ r. r.0 ≢ n) (filter (λ r. not (r.0 == nonce)) s.in_flight))
                  (ground arith) (settled nonce s.in_flight);
          };
          balance = rw (free e) (ground arith);
        })
      ]
  on_hashed-Kept u false nonce chosen hash duration_ms s free h =
      elim (Bool-cases (nonce == s.request_nonce)) [
        | inr e ↦ rw e (record { fresh = settle-IsFresh nonce s h; balance = omega arith })
        | inl e ↦ rw e (record {
          fresh = record {
            given = All-settle _ nonce s.in_flight h.given;
            single = λ p. absurd (ground arith);
          };
          balance = rw (free e) (ground arith);
        })
      ]

  pub on_hash_failed-Kept :
      (u nonce : ℕ) (s : Selector Handle) → IsFresh s → Kept u s (on_hash_failed nonce s)
  unfolding on_hash_failed
  on_hash_failed-Kept u nonce s h = elim (Bool-cases (nonce == s.request_nonce)) [
    | inr e ↦ rw e (record { fresh = settle-IsFresh nonce s h; balance = omega arith })
    | inl e ↦ rw e (record {
      fresh = record {
        given = All-settle _ nonce s.in_flight h.given;
        single = λ p. All-settle _ nonce s.in_flight (h.single p);
      };
      balance = omega arith;
    })
  ]

  -- An answer that takes the pending file away, by these calls.
  released-Kept :
      (u : ℕ) (s : Selector Handle) (status : FileStatus) (calls : List (Call Handle))
      → count u calls ≡ held u s.pending
      → IsFresh s
      → Kept u s (record s { status = status; pending = none }, calls)
  released-Kept u s status calls e h = record {
    fresh = record { given = h.given; single = λ p. absurd (ground arith) };
    balance = omega (arith, e);
  }

  answer_pending-Kept :
      (u : ℕ) (lower : String → String) (result : FileVerifyResult) (o : Option (Pending Handle))
      (s : Selector Handle)
      → o ≡ s.pending
      → IsFresh s
      → Kept u s (answer_pending lower result o s)
  unfolding answer_pending
  answer_pending-Kept u lower result none s e h = record { fresh = h; balance = omega arith }
  answer_pending-Kept u lower result (some p) s e h =
      elim (Bool-cases (is_for_other result.file_hash p.hash)) [
        | inl other ↦ rw other (record { fresh = h; balance = omega arith })
        | inr this ↦ elim (Bool-cases result.is_match) [
          | inl m ↦ rw this (
              rw m (
                released-Kept u s verified _
                  (omega (
                    arith,
                    count-append u (persist result.file_version p.selection)
                        (file_verified p.url ∷ []),
                    count-persist u result.file_version p.selection,
                    ap (held u) e,
                  ))
                  h))
          | inr m ↦ rw this (rw m (released-Kept u s _ _ (omega (arith, ap (held u) e)) h))
        ]
      ]

  when_verifying-Kept :
      (u : ℕ) (s : Selector Handle) (status : FileStatus) (run : Run Handle)
      → IsFresh s
      → Kept u s run
      → Kept u s (elim status [ verifying ↦ run | _ ↦ (s, []) ])
  when_verifying-Kept u s verifying run h k = k
  when_verifying-Kept u s _ run h k = record { fresh = h; balance = omega arith }

  pub on_verify_result-Kept :
      (u : ℕ) (lower : String → String) (result : FileVerifyResult) (s : Selector Handle)
      → IsFresh s
      → Kept u s (on_verify_result lower result s)
  unfolding on_verify_result
  on_verify_result-Kept u lower result s h =
      when_verifying-Kept u s s.status _ h (answer_pending-Kept u lower result s.pending s refl h)
