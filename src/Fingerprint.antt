-- ===== src/Fingerprint.antt =====
-- frontend/src/utils/fileHash.ts: which bytes of a file enter its hash, and how the hash is written. A file
-- is the list of its bytes, a text the list of its code points; the digest is the browser's.
pub mod Faithful
use syncwatch.Shared.{
  String, ℕ, zero, suc, ◌+◌, ◌-◌, ◌*◌, ◌/◌, ◌%◌, List, [], ◌∷◌, ◌++◌, Option, none, some, ltb, leb,
  length, take, drop, round_thousandth, if◌then◌else◌,
}

-- 1 MiB
abbrev pub chunk_size : ℕ
chunk_size = 1024 * 1024

-- `setBigUint64(…, n, false)` for eight bytes: the lowest `count` bytes of a number, the highest first.
unfoldable pub big_endian : (count n : ℕ) → List ℕ
big_endian zero n = []
big_endian (suc count) n = big_endian count (n / 256) ++ n % 256 ∷ []

-- `file.slice(from, from + count)`
abbrev pub window : (from count : ℕ) → List ℕ → List ℕ
window from count file = take count (drop from file)

abbrev pub middle_start : List ℕ → ℕ
middle_start file = length file / 2

-- The bytes that are hashed, for a chunk of any size.
unfoldable pub combined_with : (chunk : ℕ) → List ℕ → List ℕ
combined_with chunk file =
    let size = big_endian 8 (length file) in
    if leb (length file) (chunk * 3)
    then file ++ size
    else window 0 chunk file
      ++ (window (middle_start file) chunk file
          ++ (window (length file - chunk) chunk file ++ size))

abbrev pub combined : List ℕ → List ℕ
combined = combined_with chunk_size

abbrev pub hex_digit : ℕ → ℕ
hex_digit n = if ltb n 10 then b'0' + n else b'a' + (n - 10)

-- `b.toString(16)` of a byte
abbrev pub to_string_16 : ℕ → List ℕ
to_string_16 b = if ltb b 16 then hex_digit b ∷ [] else hex_digit (b / 16) ∷ hex_digit (b % 16) ∷ []

-- `s.padStart(2, '0')` of a text that is not empty
abbrev pub pad_start_2 : List ℕ → List ℕ
pad_start_2 (c ∷ []) = b'0' ∷ c ∷ []
pad_start_2 s = s

unfoldable pub hex : List ℕ → List ℕ
hex [] = []
hex (b ∷ bytes) = pad_start_2 (to_string_16 b) ++ hex bytes

unfoldable pub compute_file_hash : (digest : List ℕ → List ℕ) → List ℕ → List ℕ
unfolding hex combined_with
compute_file_hash digest file = hex (digest (combined file))

pub data VideoEvent : Type 0 where
  loaded_metadata : (duration_us : ℕ) → VideoEvent
  failed : VideoEvent

-- The duration is finite. What `getVideoDurationMs` resolves to, or that it rejects, with the object URLs that it revokes.
abbrev pub get_video_duration_ms : (url : String) → VideoEvent → Option ℕ × List String
get_video_duration_ms url (loaded_metadata duration_us) =
    (some (round_thousandth duration_us), url ∷ [])
get_video_duration_ms url failed = (none, url ∷ [])
