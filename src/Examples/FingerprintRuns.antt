-- ===== src/Examples/FingerprintRuns.antt =====
-- Runs of the file hash (frontend/src/utils/fileHash.ts), with a digest that keeps every byte.
use syncwatch.Shared.{ℕ, ◌*◌, ◌%◌, ◌≤◌, ◌<◌, ◌≡◌, refl, List, [], ◌∷◌, All, map, length, arith}
use syncwatch.Fingerprint.{chunk_size, combined_with, big_endian, hex}
use syncwatch.Fingerprint.Faithful.{same_hash, SameWindows}

abbrev bytes : List ℕ → List ℕ
bytes xs = map (λ b. b % 256) xs

bytes-All : (xs : List ℕ) → All (λ b. b < 256) (bytes xs)
bytes-All [] = tt
bytes-All (x ∷ xs) = (omega arith, bytes-All xs)

abbrev film : List ℕ
film = 7 ∷ 200 ∷ 13 ∷ []

-- Beyond three chunks, of one byte each, the hash has only the first, the middle and the last of them.
unhashed_middle : combined_with 1 (1 ∷ 2 ∷ 3 ∷ 4 ∷ []) ≡ combined_with 1 (1 ∷ 9 ∷ 3 ∷ 4 ∷ [])
unfolding combined_with big_endian
unhashed_middle = refl

written : hex (0 ∷ 10 ∷ 255 ∷ []) ≡ b'0' ∷ b'0' ∷ b'0' ∷ b'a' ∷ b'f' ∷ b'f' ∷ []
unfolding hex
written = refl

same_hash_example :
    (length film ≡ length film)
    × (length film ≤ chunk_size * 3 → film ≡ film)
    × (chunk_size * 3 < length film → SameWindows chunk_size film film)
same_hash_example = same_hash bytes film film bytes-All (λ e. refl) (omega arith) (omega arith) refl
