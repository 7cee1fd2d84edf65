-- ===== src/Socket/Frames.antt =====
-- frontend/src/hooks/useWebSocket.ts: the frames that the hook sends. An object is an association list
-- of its keys; a key of the payload whose value is `undefined` is absent.
use syncwatch.Shared.{
  ℕ, String, ◌≡◌, refl, Bool, true, false, ◌&&◌, Option, none, some, List, [], ◌∷◌, arith, str_eq,
  eq_iff, or_else, is_some, if◌then◌else◌,
}
use syncwatch.Connection.{Connection, Value, text, num, Fields, Call, send_frame}

unfoldable pub lookup : String → Fields → Option Value
lookup k [] = none
lookup k ((j, v) ∷ fs) = if str_eq j k then some v else lookup k fs

-- `object[k] = v`
unfoldable pub insert : String → Value → Fields → Fields
insert k v [] = (k, v) ∷ []
insert k v ((j, w) ∷ fs) = if str_eq j k then (k, v) ∷ fs else (j, w) ∷ insert k v fs

-- `{ ...base, ...payload }`
unfoldable pub spread : Fields → Fields → Fields
unfolding insert
spread base [] = base
spread base ((k, v) ∷ payload) = spread (insert k v base) payload

unfoldable pub outgoing : String → Fields → (file_version : ℕ) → Fields
unfolding spread lookup
outgoing kind payload file_version =
    let message = spread (("type", text kind) ∷ []) payload in
    if is_some (lookup "file_version" message)
    then message
    else insert "file_version" (num file_version) message

-- `is_open` is whether the held socket's `readyState` is `WebSocket.OPEN`.
unfoldable pub send :
    (is_open : Bool) → String → Fields → (file_version : ℕ) → Connection → Bool × List Call
unfolding outgoing
send is_open kind payload file_version c = elim c.ws [
  | none ↦ (false, [])
  | some socket ↦
      if is_open
      then (true, send_frame socket (outgoing kind payload file_version) ∷ [])
      else (false, [])
]

lookup-insert :
    (k j : String) (v : Value) (fs : Fields)
    → lookup j (insert k v fs) ≡ (if str_eq k j then some v else lookup j fs)
unfolding lookup insert
lookup-insert k j v [] = refl
lookup-insert k j v ((i, w) ∷ fs) =
    ground (arith, eq_iff k j, eq_iff i k, eq_iff i j, lookup-insert k j v fs)

-- The last value that an object literal gives to a key.
abbrev pub last_value : String → Fields → Option Value
last_value j [] = none
last_value j ((k, v) ∷ fs) =
    if is_some (last_value j fs) then last_value j fs else if str_eq k j then some v else none

abbrev pub or_other : Option Value → Option Value → Option Value
or_other (some v) other = some v
or_other none other = other

lookup-spread :
    (j : String) (payload base : Fields)
    → lookup j (spread base payload) ≡ or_other (last_value j payload) (lookup j base)
unfolding spread
lookup-spread j [] base = refl
lookup-spread j ((k, v) ∷ payload) base =
    ground (arith, lookup-spread j payload (insert k v base), lookup-insert k j v base)

-- The value of each key of an outgoing message: the payload's, if it gives one; else its kind under
-- `type`, and the version of the file that the client has under `file_version`; else nothing.
pub lookup-outgoing :
    (j kind : String) (payload : Fields) (file_version : ℕ)
    → lookup j (outgoing kind payload file_version)
      ≡ or_other (last_value j payload) (
          if str_eq "type" j
          then some (text kind)
          else if str_eq "file_version" j
          then some (num file_version)
          else none)
unfolding outgoing
lookup-outgoing j kind payload version =
    let base : Fields = ("type", text kind) ∷ [] in
    ground (
      arith,
      lookup-spread j payload base,
      lookup-spread "file_version" payload base,
      lookup-insert "file_version" j (num version) (spread base payload),
      eq_iff "type" j,
      eq_iff "file_version" j,
    )

-- A message is sent exactly when a socket is held and is open; then it is the one frame, on that
-- socket, and otherwise nothing is sent and the caller is told so.
pub send_lem :
    (is_open : Bool) (kind : String) (payload : Fields) (file_version : ℕ) (c : Connection)
    → ((send is_open kind payload file_version c).0 ≡ (is_some c.ws && is_open))
      × ((send is_open kind payload file_version c).1 ≡ (
          if (send is_open kind payload file_version c).0
          then send_frame (or_else c.ws 0) (outgoing kind payload file_version) ∷ []
          else []))
unfolding send
send_lem is_open kind payload version c = ground arith
