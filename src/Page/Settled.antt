-- ===== src/Page/Settled.antt =====
-- frontend/src/store/roomStore.ts with the handlers of frontend/src/pages/RoomPage.tsx: where a URL is once it
-- has come to the page.
use syncwatch.Shared.{
  ℕ, ◌+◌, ◌≤◌, String, ◌≡◌, ◌≢◌, refl, ap, Bool, Bool-cases, inl, inr, true, false, Option, none,
  some, List, [], ◌∷◌, ◌++◌, arith, ◌==◌, str_eq, eq_iff, if◌then◌else◌,
}
use syncwatch.Protocol.{RoomSnapshot, WsBody, WsMessage, room_state, sync, sync_state}
use syncwatch.Store.{RoomStore, set_file_url}
use syncwatch.Store.Urls.{count as traced, held as shown, step-balance}
use syncwatch.Session.{RoomClient}
use syncwatch.Handler.{handle, dispatch, on_room_state}
use syncwatch.Handler.Versions.{drops_file}
use syncwatch.FileSelector.Urls.{one_if}
use syncwatch.RoomPage.Notices.{init_notices, on_page_unmount}

-- How often a URL has been revoked, and whether the page shows it.
abbrev pub settled : String → RoomStore → ℕ
settled url s = traced url s.revoked + shown url s.file_url

-- The URL and the trace are kept, or the URL is dropped.
abbrev pub KeepsOrFrees : Bool → RoomStore → RoomStore → Type 0
KeepsOrFrees true s s' = (s'.file_url ≡ none) × (s'.revoked ≡ (set_file_url none s).revoked)
KeepsOrFrees false s s' = (s'.file_url ≡ s.file_url) × (s'.revoked ≡ s.revoked)

room_state-KeepsOrFrees :
    (m : RoomSnapshot) (v : Option ℕ) (c : RoomClient)
    → KeepsOrFrees
        (drops_file c.file_version_ref v (room_state m))
        c.store
        (on_room_state m v c).0.store
unfolding on_room_state set_file_url
room_state-KeepsOrFrees m v c = elim (Bool-cases (drops_file c.file_version_ref v (room_state m))) [
  | inl e ↦ rw e (ground arith)
  | inr e ↦ rw e (ground arith)
]

pub handle-KeepsOrFrees :
    (msg : WsMessage) (c : RoomClient)
    → KeepsOrFrees
        (drops_file c.file_version_ref msg.file_version msg.body)
        c.store
        (handle msg c).0.store
unfolding handle set_file_url
handle-KeepsOrFrees msg c = go msg.body
  where
    go :
        (b : WsBody)
        → KeepsOrFrees
            (drops_file c.file_version_ref msg.file_version b)
            c.store
            (dispatch b msg.file_version c).0.store
    go (room_state m) = room_state-KeepsOrFrees m msg.file_version c
    go (sync (sync_state p t)) = ground arith
    go _ = ground arith

settled-free :
    (url : String) (s : RoomStore)
    → url ≢ ""
    → traced url (set_file_url none s).revoked ≡ settled url s
settled-free url s h = omega (arith, step-balance url none s h)

pub settled-KeepsOrFrees :
    (d : Bool) (url : String) (s s' : RoomStore)
    → url ≢ ""
    → KeepsOrFrees d s s'
    → settled url s' ≡ settled url s
settled-KeepsOrFrees true url s s' h k =
    omega (arith, settled-free url s h, ap (traced url) k.1, ap (shown url) k.0)
settled-KeepsOrFrees false url s s' h k = omega (arith, ap (traced url) k.1, ap (shown url) k.0)

pub at_most_one : (b : Bool) → one_if b ≤ 1
at_most_one true = omega arith
at_most_one false = omega arith

pub same_url :
    (url_of : ℕ → String)
    → ((u v : ℕ) → url_of u ≡ url_of v → u ≡ v)
    → (u v : ℕ) → (if str_eq (url_of v) (url_of u) then 1 else 0) ≡ one_if (v == u)
same_url url_of distinct u v = elim (Bool-cases (v == u)) [
  | inl same ↦
      let e : v ≡ u = ground arith in
      let e' : str_eq (url_of v) (url_of u) ≡ true =
        (eq_iff (url_of v) (url_of u)).1 (ap url_of e) in
      rw same (rw e' refl)
  | inr other ↦ elim (Bool-cases (str_eq (url_of v) (url_of u))) [
    | inl equal ↦
        let e = distinct v u ((eq_iff (url_of v) (url_of u)).0 equal) in absurd (ground arith)
    | inr unequal ↦ rw other (rw unequal refl)
  ]
]

pub traced-append :
    (url : String) (xs ys : List String) → traced url (xs ++ ys) ≡ traced url xs + traced url ys
traced-append url [] ys = omega arith
traced-append url (x ∷ xs) ys = omega (arith, traced-append url xs ys)

pub traced-shown :
    (url : String) (o : Option String)
    → url ≢ ""
    → traced url (on_page_unmount o init_notices).1 ≡ shown url o
unfolding on_page_unmount
traced-shown url none h = refl
traced-shown url (some x) h = ground (arith, eq_iff x url, eq_iff x "")
