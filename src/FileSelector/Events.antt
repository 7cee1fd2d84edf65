-- ===== src/FileSelector/Events.antt =====
-- frontend/src/components/room/FileSelector.tsx: sequences of what happens to a selector.
use syncwatch.Shared.{ℕ, String, Bool, true, false, Option, none, some, List, [], ◌∷◌, ◌++◌}
use syncwatch.Protocol.{FileVerifyResult}
use syncwatch.FileSelector.{
  Selection, Selector, Run, process_selected_file, on_hashed, on_hash_failed, on_verify_result,
}
use syncwatch.FileSelector.Urls.{lookup}

-- A file is chosen; the hash of the selection with this nonce is there, or fails; the server answers.
pub data Event (Handle : Type 0) : Type 0 where
  chooses : Selection Handle → Event Handle
  hashed : (accepted : Bool) (nonce : ℕ) (hash : String) (duration_ms : ℕ) → Event Handle
  hash_failed : (nonce : ℕ) → Event Handle
  answered : FileVerifyResult → Event Handle

module _ {Handle : Type 0} (lower : String → String) where
  abbrev pub finish :
      Option (Selection Handle) → Bool → ℕ → String → ℕ → Selector Handle → Run Handle
  finish none accepted nonce hash duration_ms s = (s, [])
  finish (some chosen) accepted nonce hash duration_ms s =
      on_hashed accepted nonce chosen hash duration_ms s

  abbrev pub step : Event Handle → Selector Handle → Run Handle
  step (chooses chosen) s = process_selected_file chosen s
  step (hashed accepted nonce hash duration_ms) s =
      finish (lookup nonce s.in_flight) accepted nonce hash duration_ms s
  step (hash_failed nonce) s = on_hash_failed nonce s
  step (answered result) s = on_verify_result lower result s

  unfoldable pub run : List (Event Handle) → Selector Handle → Run Handle
  run [] s = (s, [])
  run (e ∷ es) s = let (s', calls) = step e s in let (s'', more) = run es s' in (s'', calls ++ more)

module _ {Handle : Type 0} where
  abbrev pub is_hash : Event Handle → Bool
  is_hash (hashed accepted nonce hash duration_ms) = true
  is_hash (hash_failed nonce) = true
  is_hash _ = false
