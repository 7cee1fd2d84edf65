-- ===== src/FileSelector.antt =====
-- frontend/src/components/room/FileSelector.tsx: choosing a local file, hashing it, and the object URL
-- that stands for it until the server has verified it. `processSelectedFile` is cut at its await: a
-- selection that is hashed is kept in `in_flight` until the hash is there. The number of a URL is the
-- next of `created`.
pub mod Urls
pub mod Events
pub mod Late
pub mod Releases
pub mod Restore
pub mod View
pub mod Kept
use syncwatch.Shared.{
  ℕ, ◌+◌, String, Bool, true, false, not, ◌&&◌, ◌||◌, Option, none, some, List, [], ◌∷◌, ◌++◌,
  filter, ◌==◌, is_some, is_truthy, str_eq, if◌then◌else◌,
}
use text.Mathlib.Text.{find?, starts_with}
use syncwatch.Protocol.{FileVerifyResult}

pub data FileStatus : Type 0 where
  idle hashing verifying verified mismatch error not_video : FileStatus

pub record LocalFile : Type 0 where
  pub name : String
  pub mime : String
  pub size : ℕ

-- A file with the handle by which it was picked, if there is one.
pub record Selection (Handle : Type 0) : Type 0 where
  pub file : LocalFile
  pub handle : Option Handle

-- `pendingFile`
pub record Pending (Handle : Type 0) : Type 0 where
  pub url : ℕ
  pub hash : String
  pub duration_ms : ℕ
  pub selection : Selection Handle

pub record Selector (Handle : Type 0) : Type 0 where
  pub status : FileStatus
  pub file_name : String
  pub request_nonce : ℕ
  pub pending : Option (Pending Handle)
  pub in_flight : List (ℕ × Selection Handle)
  pub created : ℕ

pub data Call (Handle : Type 0) : Type 0 where
  -- `URL.revokeObjectURL`
  revoke : (url : ℕ) → Call Handle
  -- `onFileVerified`
  file_verified : (url : ℕ) → Call Handle
  verify_request : (hash : String) (size duration_ms : ℕ) (name : String) → Call Handle
  clear_persisted : Call Handle
  save_handle : (file_version : ℕ) → Handle → Call Handle
  save_blob : (file_version : ℕ) → LocalFile → Call Handle

-- `file.type && !file.type.startsWith('video/')`
abbrev pub is_other_type : LocalFile → Bool
is_other_type f = is_truthy (some f.mime) && not (starts_with f.mime "video/")

-- `verifyResult.file_hash && verifyResult.file_hash !== pending.hash`
abbrev pub is_for_other : Option String → String → Bool
is_for_other none hash = false
is_for_other (some h) hash = is_truthy (some h) && not (str_eq h hash)

-- `!!reason && reason.toLowerCase().includes('has not selected')`; `lower` is `toLowerCase`.
abbrev pub is_waiting_for_host : (lower : String → String) → Option String → Bool
is_waiting_for_host lower none = false
is_waiting_for_host lower (some r) =
    is_truthy (some r) && is_some (find? (lower r) "has not selected")

abbrev pub Run : Type 0 → Type 0
Run Handle = Selector Handle × List (Call Handle)

module _ {Handle : Type 0} where
  abbrev pub revoke_pending : Option (Pending Handle) → List (Call Handle)
  revoke_pending none = []
  revoke_pending (some p) = revoke p.url ∷ []

  -- `processSelectedFile` up to its `await`.
  unfoldable pub process_selected_file : Selection Handle → Selector Handle → Run Handle
  process_selected_file chosen s =
      let nonce = s.request_nonce + 1 in
      let revoked = revoke_pending s.pending in
      if is_other_type chosen.file
      then (
        record s {
          request_nonce = nonce;
          pending = none;
          file_name = chosen.file.name;
          status = not_video;
        },
        revoked ++ clear_persisted ∷ [],
      )
      else (
        record s {
          request_nonce = nonce;
          pending = none;
          file_name = chosen.file.name;
          status = hashing;
          in_flight = (nonce, chosen) ∷ s.in_flight;
        },
        revoked,
      )

  -- The selection with this nonce is hashed no longer.
  abbrev pub settle : ℕ → Selector Handle → Selector Handle
  settle nonce s = record s { in_flight = filter (λ r. not (r.0 == nonce)) s.in_flight }

  -- The rest of `processSelectedFile`, once the hash and the duration are there; `accepted` is the answer
  -- of `onVerifyRequest`.
  unfoldable pub on_hashed :
      (accepted : Bool) (nonce : ℕ) (chosen : Selection Handle) (hash : String) (duration_ms : ℕ)
      → Selector Handle
      → Run Handle
  on_hashed accepted nonce chosen hash duration_ms s =
      let url = s.created in
      let request = verify_request hash chosen.file.size duration_ms chosen.file.name in
      if not (nonce == s.request_nonce)
      then (settle nonce s, [])
      else if accepted
      then (
        record (settle nonce s) {
          created = url + 1;
          status = verifying;
          pending =
              some
                (record { url = url; hash = hash; duration_ms = duration_ms; selection = chosen });
        },
        request ∷ [],
      )
      else (
        record (settle nonce s) { created = url + 1; status = idle; pending = none },
        request ∷ revoke url ∷ [],
      )

  -- Where the hash or the duration fails.
  unfoldable pub on_hash_failed : (nonce : ℕ) → Selector Handle → Run Handle
  on_hash_failed nonce s = (
    if nonce == s.request_nonce then record (settle nonce s) { status = error } else settle nonce s,
    [],
  )

  -- What is kept for the next visit when the server agrees.
  abbrev pub persist : Option ℕ → Selection Handle → List (Call Handle)
  persist none chosen = []
  persist (some version) chosen = if version == 0 then [] else elim chosen.handle [
    | none ↦ save_blob version chosen.file ∷ []
    | some handle ↦ save_handle version handle ∷ []
  ]

  -- The answer of the server, for the pending file.
  answer_pending :
      (lower : String → String)
      → FileVerifyResult
      → Option (Pending Handle)
      → Selector Handle
      → Run Handle
  answer_pending lower result none s = (s, [])
  answer_pending lower result (some p) s =
      if is_for_other result.file_hash p.hash
      then (s, [])
      else if result.is_match
      then (
        record s { status = verified; pending = none },
        persist result.file_version p.selection ++ file_verified p.url ∷ [],
      )
      else (
        record s {
          status = if is_waiting_for_host lower result.reason then idle else mismatch;
          pending = none;
        },
        clear_persisted ∷ revoke p.url ∷ [],
      )

  -- The timeout of the effect on `verifyResult`, which is set only in the status `verifying`.
  unfoldable pub on_verify_result :
      (lower : String → String) → FileVerifyResult → Selector Handle → Run Handle
  unfolding answer_pending
  on_verify_result lower result s = elim s.status [
    | verifying ↦ answer_pending lower result s.pending s
    | _ ↦ (s, [])
  ]

  -- The cleanup when the selector goes away; the file stays in `pendingFile`, which nothing reads again.
  unfoldable pub on_unmount : Selector Handle → Run Handle
  on_unmount s = (record s { request_nonce = s.request_nonce + 1 }, revoke_pending s.pending)
