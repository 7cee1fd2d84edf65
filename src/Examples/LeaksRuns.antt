-- ===== src/Examples/LeaksRuns.antt =====
-- Runs of the page's local file (frontend/src/pages/RoomPage.tsx), with texts of growing length as URLs.
use Prim.Native.Char.{nul}
use Prim.Native.String.{String}
use syncwatch.Shared.{
  ℕ, zero, suc, ◌+◌, ◌≡◌, ◌≢◌, refl, sym, ap, true, none, some, List, [], ◌∷◌, ltb,
}
use syncwatch.Protocol.{file_changed}
use syncwatch.Store.{init}
use syncwatch.Store.Urls.{count as traced, held as shown}
use syncwatch.FileSelector.Urls.{one_if, held}
use syncwatch.FileSelector.Events.{chooses, hashed, answered}
use syncwatch.Page.Files.{
  Files, FileEvent, selects, receives, changes_file, shows_selector, file_run, on_leave,
}
use syncwatch.Page.Leaks.{no_leak}
use syncwatch.Examples.HandlerRuns.{watching, untagged}
use syncwatch.Examples.FileSelectorRuns.{empty, film}

abbrev url_of : ℕ → String
url_of zero = String.◌∷◌ nul String.[]
url_of (suc n) = String.◌∷◌ nul (url_of n)

rest_eq : (s t : String) → String.◌∷◌ nul s ≡ String.◌∷◌ nul t → s ≡ t
rest_eq s t e = cc

url_of-named : (u : ℕ) → url_of u ≢ ""
url_of-named zero e = cc
url_of-named (suc u) e = cc

url_of-distinct : (u v : ℕ) → url_of u ≡ url_of v → u ≡ v
url_of-distinct zero zero e = refl
url_of-distinct zero (suc v) e = absurd (url_of-named v (sym (rest_eq "" (url_of v) e)))
url_of-distinct (suc u) zero e = absurd (url_of-named u (rest_eq (url_of u) "" e))
url_of-distinct (suc u) (suc v) e = ap suc (url_of-distinct u v (rest_eq (url_of u) (url_of v) e))

abbrev no_file : Files ℕ
no_file = record { selector = empty; room = record watching { store = init } }

-- One film is shown, dropped for another version, and the next one waits when the host changes the file.
abbrev evening : List (FileEvent ℕ)
evening =
    selects (chooses (film "one"))
    ∷ selects (hashed true 1 "h1" 60000)
    ∷ selects (
        answered
          (record { is_match = true; reason = none; file_version = some 2; file_hash = some "h1" }))
    ∷ receives (untagged (file_changed "h2" 100 60000 "two"))
    ∷ shows_selector
    ∷ selects (chooses (film "two"))
    ∷ selects (hashed true 3 "h2" 60000)
    ∷ changes_file "room"
    ∷ []

no_leak_example :
    let f' = file_run (λ r. r) url_of evening no_file in
    let shown_now = shown (url_of 0) f'.room.store.file_url in
    (traced (url_of 0) f'.room.store.revoked + shown_now + held 0 f'.selector.pending
      ≡ one_if (ltb 0 f'.selector.created))
    × (traced (url_of 0) (on_leave (λ r. r) url_of f')
        ≡ one_if (ltb 0 f'.selector.created) + shown_now)
unfolding init
no_leak_example =
    no_leak (λ r. r) url_of url_of-distinct url_of-named 0 evening no_file refl refl refl refl refl
