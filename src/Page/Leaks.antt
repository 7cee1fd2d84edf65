-- ===== src/Page/Leaks.antt =====
-- frontend/src/pages/RoomPage.tsx, frontend/src/components/room/FileSelector.tsx and
-- frontend/src/store/roomStore.ts: no object URL leaks.
use syncwatch.Shared.{ℕ, ◌+◌, ◌≤◌, String, ◌≡◌, ◌≢◌, none, some, List, [], ◌∷◌, arith, ltb}
use syncwatch.Store.{set_file_url, reset_room}
use syncwatch.Store.Urls.{count as traced, held as shown, step-balance, reset-balance}
use syncwatch.Session.{RoomClient}
use syncwatch.Handler.{handle}
use syncwatch.Handler.Versions.{drops_file}
use syncwatch.FileSelector.{
  Selector, Call, revoke, file_verified, verify_request, clear_persisted, save_handle, save_blob,
  on_unmount,
}
use syncwatch.FileSelector.Urls.{one_if, count, held, IsFresh, count-revoke_pending}
use syncwatch.FileSelector.Events.{step}
use syncwatch.FileSelector.Releases.{step-Kept}
use syncwatch.RoomPage.{handle_file_verified, handle_verify_request, handle_change_file}
use syncwatch.RoomPage.Notices.{init_notices, on_page_unmount}
use syncwatch.Page.Files.{
  Files, FileEvent, selects, receives, changes_file, shows_selector, mounted_anew, on_call,
  on_calls, after_run, file_step, file_run, on_leave,
}
use syncwatch.Page.Settled.{
  settled, at_most_one, same_url, settled-KeepsOrFrees, handle-KeepsOrFrees, traced-append,
  traced-shown,
}

module _ {Handle : Type 0} (lower : String → String) (url_of : ℕ → String)
    (distinct : (u v : ℕ) → url_of u ≡ url_of v → u ≡ v) (named : (u : ℕ) → url_of u ≢ "") where
  -- A call brings the URL into the room as often as it hands it over or revokes it, unless it is shown.
  places-on_call :
      (u : ℕ) (call : Call Handle) (c : RoomClient)
      → shown (url_of u) c.store.file_url + count u (call ∷ []) ≤ 1
      → settled (url_of u) (on_call lower url_of call c).store
        ≡ settled (url_of u) c.store + count u (call ∷ [])
  unfolding on_call handle_file_verified handle_verify_request
  places-on_call u (revoke v) c h = omega (arith, same_url url_of distinct u v)
  places-on_call u (file_verified v) c h = omega (
    arith,
    h,
    same_url url_of distinct u v,
    step-balance (url_of u) (some (url_of v)) c.store (named u),
  )
  places-on_call u (verify_request hash size duration_ms name) c h = omega arith
  places-on_call u clear_persisted c h = omega arith
  places-on_call u (save_handle version handle) c h = omega arith
  places-on_call u (save_blob version file) c h = omega arith

  shown-on_call :
      (u : ℕ) (call : Call Handle) (c : RoomClient)
      → shown (url_of u) (on_call lower url_of call c).store.file_url
        ≤ shown (url_of u) c.store.file_url + count u (call ∷ [])
  unfolding on_call handle_file_verified handle_verify_request set_file_url
  shown-on_call u (revoke v) c = omega arith
  shown-on_call u (file_verified v) c = omega (arith, same_url url_of distinct u v)
  shown-on_call u (verify_request hash size duration_ms name) c = omega arith
  shown-on_call u clear_persisted c = omega arith
  shown-on_call u (save_handle version handle) c = omega arith
  shown-on_call u (save_blob version file) c = omega arith

  count-cons :
      (u : ℕ) (call : Call Handle) (calls : List (Call Handle))
      → count u (call ∷ calls) ≡ count u (call ∷ []) + count u calls
  count-cons u (revoke v) calls = omega arith
  count-cons u (file_verified v) calls = omega arith
  count-cons u (verify_request hash size duration_ms name) calls = omega arith
  count-cons u clear_persisted calls = omega arith
  count-cons u (save_handle version handle) calls = omega arith
  count-cons u (save_blob version file) calls = omega arith

  places-on_calls :
      (u : ℕ) (calls : List (Call Handle)) (c : RoomClient)
      → shown (url_of u) c.store.file_url + count u calls ≤ 1
      → settled (url_of u) (on_calls lower url_of calls c).store
        ≡ settled (url_of u) c.store + count u calls
  unfolding on_calls
  places-on_calls u [] c h = omega arith
  places-on_calls u (call ∷ calls) c h =
      let split = count-cons u call calls in
      let here = places-on_call u call c (omega (arith, h, split)) in
      let still = shown-on_call u call c in
      omega (
        arith,
        split,
        here,
        places-on_calls u calls (on_call lower url_of call c) (omega (arith, h, split, still)),
      )

  -- Each URL that the selector has created is at one place, and no other URL is at any.
  pub record Ledger (u : ℕ) (f : Files Handle) : Type 0 where
    pub fresh : IsFresh f.selector
    pub balance :
        settled (url_of u) f.room.store + held u f.selector.pending
        ≡ one_if (ltb u f.selector.created)

  after_run-balance :
      (u : ℕ) (f : Files Handle) (s : Selector Handle) (calls : List (Call Handle))
      → settled (url_of u) f.room.store + held u f.selector.pending
        ≡ one_if (ltb u f.selector.created)
      → count u calls + held u s.pending + one_if (ltb u f.selector.created)
        ≡ held u f.selector.pending + one_if (ltb u s.created)
      → let f' = after_run lower url_of (s, calls) f.room in
        settled (url_of u) f'.room.store + held u f'.selector.pending
        ≡ one_if (ltb u f'.selector.created)
  after_run-balance u f s calls b k = omega (
    arith,
    b,
    k,
    places-on_calls u calls f.room (
        omega (arith, b, k, at_most_one (ltb u s.created), at_most_one (ltb u f.selector.created))),
  )

  anew-Ledger :
      (u : ℕ) (f : Files Handle) → Ledger u f → Ledger u (file_step lower url_of shows_selector f)
  unfolding on_unmount
  anew-Ledger u f l = record {
    fresh = record { given = tt; single = λ p. tt };
    balance =
        after_run-balance u f (mounted_anew (on_unmount f.selector).0) (on_unmount f.selector).1
          l.balance (omega (arith, count-revoke_pending u f.selector.pending));
  }

  file_step-Ledger :
      (u : ℕ) (e : FileEvent Handle) (f : Files Handle)
      → Ledger u f
      → Ledger u (file_step lower url_of e f)
  unfolding handle_change_file
  file_step-Ledger u (selects e) f l =
      let k = step-Kept lower u e f.selector l.fresh in
      record {
        fresh = k.fresh;
        balance =
            after_run-balance u f (step lower e f.selector).0 (step lower e f.selector).1 l.balance
              k.balance;
      }
  file_step-Ledger u (receives msg) f l = record {
    fresh = l.fresh;
    balance = omega (
      arith,
      l.balance,
      settled-KeepsOrFrees (drops_file f.room.file_version_ref msg.file_version msg.body) (url_of u)
          f.room.store (handle msg f.room).0.store (named u) (handle-KeepsOrFrees msg f.room),
    );
  }
  file_step-Ledger u (changes_file room_id) f l = record {
    fresh = l.fresh;
    balance = omega (arith, l.balance, step-balance (url_of u) none f.room.store (named u));
  }
  file_step-Ledger u shows_selector f l = anew-Ledger u f l

  file_run-Ledger :
      (u : ℕ) (es : List (FileEvent Handle)) (f : Files Handle)
      → Ledger u f
      → Ledger u (file_run lower url_of es f)
  unfolding file_run
  file_run-Ledger u [] f l = l
  file_run-Ledger u (e ∷ es) f l =
      file_run-Ledger u es (file_step lower url_of e f) (file_step-Ledger u e f l)

  held-unmount : (u : ℕ) (s : Selector Handle) → count u (on_unmount s).1 ≡ held u s.pending
  unfolding on_unmount
  held-unmount u s = count-revoke_pending u s.pending

  leave-once :
      (u : ℕ) (f : Files Handle)
      → Ledger u f
      → traced (url_of u) (on_leave lower url_of f)
        ≡ one_if (ltb u f.selector.created) + shown (url_of u) f.room.store.file_url
  unfolding on_leave
  leave-once u f l =
      let calls = (on_unmount f.selector).1 in
      let shut = on_calls lower url_of calls f.room in
      let released = held-unmount u f.selector in
      omega (
        arith,
        l.balance,
        released,
        at_most_one (ltb u f.selector.created),
        traced-append (url_of u) (on_page_unmount f.room.store.file_url init_notices).1
            (reset_room shut.store).revoked,
        traced-shown (url_of u) f.room.store.file_url (named u),
        reset-balance (url_of u) shut.store (named u),
        places-on_calls u calls f.room
            (omega (arith, l.balance, released, at_most_one (ltb u f.selector.created))),
      )

  -- From a page without a file, whatever is chosen, hashed, answered, dropped by the server's messages or
  -- changed by the host, in any order: while the page is there, each object URL that the selector created is shown,
  -- waits for the server, or has been revoked exactly once, one of the three; and when the page has gone
  -- away each has been revoked, once, but for the one that was shown, whose revocation is repeated.
  pub no_leak :
      (u : ℕ) (es : List (FileEvent Handle)) (f : Files Handle)
      → f.selector.pending ≡ none
      → f.selector.in_flight ≡ []
      → f.selector.created ≡ 0
      → f.room.store.file_url ≡ none
      → f.room.store.revoked ≡ []
      → let f' = file_run lower url_of es f in
        let shown_now = shown (url_of u) f'.room.store.file_url in
        (traced (url_of u) f'.room.store.revoked + shown_now + held u f'.selector.pending
          ≡ one_if (ltb u f'.selector.created))
        × (traced (url_of u) (on_leave lower url_of f')
            ≡ one_if (ltb u f'.selector.created) + shown_now)
  no_leak u es f p i c n r =
      let start : Ledger u f = record {
        fresh = record { given = rw i tt; single = λ q. rw i tt };
        balance = rw p (rw c (rw n (rw r (ground arith))));
      } in
      let l = file_run-Ledger u es f start in
      (l.balance, leave-once u (file_run lower url_of es f) l)
