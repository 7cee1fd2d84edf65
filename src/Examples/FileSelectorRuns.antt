-- ===== src/Examples/FileSelectorRuns.antt =====
-- Runs of the file selector (frontend/src/components/room/FileSelector.tsx).
use syncwatch.Shared.{ℕ, true, String, none, some, List, [], ◌∷◌}
use syncwatch.Protocol.{FileVerifyResult}
use syncwatch.RoomFiles.{KeyStore, Stored, Browser, Db, granted}
use syncwatch.Examples.RoomFilesRuns.{functions}
use syncwatch.FileSelector.{Selector, Selection, LocalFile, Pending, idle, verifying}
use syncwatch.FileSelector.Events.{Event, chooses, hashed, answered}
use syncwatch.FileSelector.Urls.{IsFresh}

abbrev pub empty : Selector ℕ
empty = record {
  status = idle;
  file_name = "";
  request_nonce = 0;
  pending = none;
  in_flight = [];
  created = 0;
}

empty-IsFresh : IsFresh empty
empty-IsFresh = record { given = tt; single = λ p. tt }

abbrev pub film : (name : String) → Selection ℕ
film name = record {
  file = record { name = name; mime = "video/mp4"; size = 1000 };
  handle = some 4;
}

-- The first film is hashed too late; the second is handed over; the third still waits.
abbrev three_films : List (Event ℕ)
three_films =
    chooses (film "one")
    ∷ chooses (film "two")
    ∷ hashed true 1 "h1" 60000
    ∷ hashed true 2 "h2" 60000
    ∷ answered
        (record { is_match = true; reason = none; file_version = some 3; file_hash = some "h2" })
    ∷ chooses (film "three")
    ∷ hashed true 3 "h3" 60000
    ∷ chooses (film "four")
    ∷ []

-- The stores of the browser; the handle 4 yields the second film.
abbrev browser : Browser ℕ LocalFile
browser = record {
  has_indexed_db = true;
  has_file_system_access = true;
  open_ok = true;
  handle_request_ok = true;
  blob_request_ok = true;
  query_permission = λ h. some granted;
  get_file = λ h. some (film "two").file;
  size = λ f. f.size;
}

abbrev handles : KeyStore (Stored ℕ)
handles = functions (Stored ℕ)

abbrev copies : KeyStore (Stored LocalFile)
copies = functions (Stored LocalFile)

abbrev nothing_kept : Db handles copies browser
nothing_kept = (λ k. none, λ k. none)

-- A handle of the version 2 is stored for the lounge.
abbrev older_kept : Db handles copies browser
older_kept =
    (handles.put "lounge" (record { file_version = 2; item = 7 }) nothing_kept.0, nothing_kept.1)

abbrev waiting : Pending ℕ
waiting = record { url = 2; hash = "h2"; duration_ms = 60000; selection = film "two" }

abbrev asked : Selector ℕ
asked = record empty { status = verifying; pending = some waiting; created = 2 }

abbrev accepted : FileVerifyResult
accepted = record { is_match = true; reason = none; file_version = some 3; file_hash = some "h2" }

-- The same file, dropped on the selector.
abbrev dropped : Pending ℕ
dropped = record waiting { selection = record { file = (film "two").file; handle = none } }
