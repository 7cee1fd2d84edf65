-- ===== src/Store/Urls.antt =====
-- frontend/src/store/roomStore.ts: the life of the object URLs that the store holds in `fileUrl`.
use syncwatch.Shared.{
  ℕ, ◌+◌, ◌-◌, String, ◌≡◌, ◌≢◌, ◌&&◌, Option, none, some, List, [], ◌∷◌, arith, str_eq, is_truthy,
  eq_iff, if◌then◌else◌,
}
use syncwatch.Store.{RoomStore, revoke_if, differs, set_file_url, reset_room}

-- The two actions that change `fileUrl`.
pub data UrlCall : Type 0 where
  sets : Option String → UrlCall
  resets : UrlCall

abbrev pub call : UrlCall → RoomStore → RoomStore
call (sets url) s = set_file_url url s
call resets s = reset_room s

pub run : List UrlCall → RoomStore → RoomStore
run [] s = s
run (c ∷ cs) s = run cs (call c s)

-- How often a URL stands in a trace.
abbrev pub count : String → List String → ℕ
count u [] = 0
count u (x ∷ xs) = (if str_eq x u then 1 else 0) + count u xs

-- 1 if the URL is the held one.
abbrev pub held : String → Option String → ℕ
held u none = 0
held u (some x) = if str_eq x u then 1 else 0

-- How often the URL becomes the held one while another is held, or none.
abbrev pub installs : String → Option String → List UrlCall → ℕ
installs u current [] = 0
installs u current (sets url ∷ cs) = (held u url - held u current) + installs u url cs
installs u current (resets ∷ cs) = installs u none cs

pub step-balance :
    (u : String) (url : Option String) (s : RoomStore)
    → u ≢ ""
    → count u (set_file_url url s).revoked + held u url
      ≡ count u s.revoked + held u s.file_url + (held u url - held u s.file_url)
unfolding set_file_url
step-balance u url s h = go s.file_url url
  where
    go :
        (o v : Option String)
        → count u (revoke_if (is_truthy o && differs o v) o s.revoked) + held u v
          ≡ count u s.revoked + held u o + (held u v - held u o)
    go none none = ground arith
    go none (some v) = ground arith
    go (some x) none = ground (arith, eq_iff x u, eq_iff x "")
    go (some x) (some v) = ground (arith, eq_iff x u, eq_iff x "", eq_iff v u, eq_iff x v)

pub reset-balance :
    (u : String) (s : RoomStore)
    → u ≢ ""
    → count u (reset_room s).revoked ≡ count u s.revoked + held u s.file_url
unfolding reset_room
reset-balance u s h = go s.file_url
  where
    go :
        (o : Option String)
        → count u (revoke_if (is_truthy o) o s.revoked) ≡ count u s.revoked + held u o
    go none = ground arith
    go (some x) = ground (arith, eq_iff x u, eq_iff x "")

-- Over any sequence of `setFileUrl` and `resetRoom`, each URL has been revoked exactly once for each
-- time that it was installed, except that the installation which is still held is not yet revoked: none
-- leaks, and none is revoked twice or while it is in use.
pub revoked-balance :
    (u : String) (cs : List UrlCall) (s : RoomStore)
    → u ≢ ""
    → count u (run cs s).revoked + held u (run cs s).file_url
      ≡ count u s.revoked + held u s.file_url + installs u s.file_url cs
unfolding run set_file_url reset_room
revoked-balance u [] s h = omega arith
revoked-balance u (sets url ∷ cs) s h =
    omega (arith, step-balance u url s h, revoked-balance u cs (set_file_url url s) h)
revoked-balance u (resets ∷ cs) s h =
    omega (arith, reset-balance u s h, revoked-balance u cs (reset_room s) h)
