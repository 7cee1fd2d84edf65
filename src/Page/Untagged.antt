-- ===== src/Page/Untagged.antt =====
-- frontend/src/hooks/useVideoSync.ts: the sync hook leaves the version to the hook of the socket.
use syncwatch.Shared.{
  ℕ, ◌≡◌, refl, ap, Bool, Bool-cases, inl, inr, true, false, Option, none, some, List, [], ◌∷◌,
  ◌++◌, map, All, All-append, ◌*◌, str_eq, if◌then◌else◌,
}
use syncwatch.Protocol.{
  SyncBody, SyncMessage, sync_state, sync_correction, sync_check, playback_rate,
}
use syncwatch.Connection.{num}
use syncwatch.Socket.Frames.{last_value, or_other}
use syncwatch.Session.{Output, on_sync_message, navigate, push_toast}
use syncwatch.VideoSync as Sync
use syncwatch.VideoSync.{
  SyncState, handle_sync_message, obey, remember, align, sync_report, is_other_version,
  on_play_rejected,
}
use syncwatch.Page.{PageCall, command, pass_on}
use syncwatch.Page.Frames.{Message, sent_by_sync}

-- The message gives this version, or leaves it to the hook.
abbrev pub Gives : ℕ → Message → Type 0
Gives version m = or_other (last_value "file_version" m.1) (some (num version)) ≡ some (num version)

-- The sync hook's commands give no version.
abbrev Untagged : Sync.Command → Type 0
Untagged (Sync.Command.send kind fields) = last_value "file_version" fields ≡ none
Untagged _ = Unit

maybe-Untagged :
    (b : Bool) (c : Sync.Command) → Untagged c → All Untagged (if b then c ∷ [] else [])
maybe-Untagged true c h = (h, tt)
maybe-Untagged false c h = tt

unless-Untagged :
    (b : Bool) (c : Sync.Command) → Untagged c → All Untagged (if b then [] else c ∷ [])
unless-Untagged true c h = tt
unless-Untagged false c h = (h, tt)

align-Untagged :
    (p : Bool) (ms : ℕ) (v : Sync.Video) (s : SyncState) → All Untagged (align p ms v s).1
unfolding align
align-Untagged true ms v s =
    All-append Untagged _ _ (maybe-Untagged _ (Sync.Command.seek (ms * 1000)) tt)
      (maybe-Untagged v.is_paused Sync.Command.play tt)
align-Untagged false ms v s =
    All-append Untagged _ _ (maybe-Untagged _ (Sync.Command.seek (ms * 1000)) tt)
      (unless-Untagged v.is_paused Sync.Command.pause tt)

obey-Untagged : (b : SyncBody) (v : Sync.Video) (s : SyncState) → All Untagged (obey b v s).1
unfolding obey sync_report
obey-Untagged (sync_state p ms) v s = align-Untagged p ms v s
obey-Untagged (sync_correction action ms) v s =
    maybe-Untagged (str_eq action "seek") (Sync.Command.seek (ms * 1000)) tt
obey-Untagged (sync_check ms p) v s = (refl, tt)
obey-Untagged (playback_rate rate) v s = (tt, (tt, tt))

if_other-Untagged :
    (b : Bool) (s s' : SyncState) (calls : List Sync.Command)
    → All Untagged calls
    → (let r : SyncState × List Sync.Command = if b then (s', []) else (s, calls) in
        All Untagged r.1)
if_other-Untagged true s s' calls h = tt
if_other-Untagged false s s' calls h = h

sync-Untagged :
    (version : ℕ) (video : Option Sync.Video) (msg : SyncMessage) (s : SyncState)
    → All Untagged (handle_sync_message version video msg s).1
unfolding handle_sync_message
sync-Untagged version none msg s = tt
sync-Untagged version (some v) msg s =
    elim (Bool-cases (is_other_version msg.file_version version)) [
      | inl other ↦ rw other tt
      | inr mine ↦ rw mine (obey-Untagged msg.body v (remember version msg s))
    ]

sent-command :
    (version : ℕ) (cs : List Sync.Command) (rest : List PageCall)
    → All Untagged cs
    → All (Gives version) (sent_by_sync rest)
    → All (Gives version) (sent_by_sync (map command cs ++ rest))
sent-command version [] rest h k = k
sent-command version (Sync.Command.send kind fields ∷ cs) rest h k =
    (ap (λ o. or_other o (some (num version))) h.0, sent-command version cs rest h.1 k)
sent-command version (Sync.Command.seek us ∷ cs) rest h k = sent-command version cs rest h.1 k
sent-command version (Sync.Command.play ∷ cs) rest h k = sent-command version cs rest h.1 k
sent-command version (Sync.Command.resume ∷ cs) rest h k = sent-command version cs rest h.1 k
sent-command version (Sync.Command.pause ∷ cs) rest h k = sent-command version cs rest h.1 k
sent-command version (Sync.Command.set_rate r ∷ cs) rest h k = sent-command version cs rest h.1 k
sent-command version (Sync.Command.restart_nudge_timer ∷ cs) rest h k =
    sent-command version cs rest h.1 k

-- What is sent for the outputs of the handler.
pub pass_on-Gives :
    (version captured : ℕ) (video : Option Sync.Video) (out : List Output) (s : SyncState)
    → All (Gives version) (sent_by_sync (pass_on captured video out s).1)
pass_on-Gives version captured video [] s = tt
pass_on-Gives version captured video (on_sync_message msg ∷ out) s =
    let (s', calls) = handle_sync_message captured video msg s in
    sent-command version calls (pass_on captured video out s').1
      (sync-Untagged captured video msg s) (pass_on-Gives version captured video out s')
pass_on-Gives version captured video (navigate notice ∷ out) s =
    pass_on-Gives version captured video out s
pass_on-Gives version captured video (push_toast options ∷ out) s =
    pass_on-Gives version captured video out s
