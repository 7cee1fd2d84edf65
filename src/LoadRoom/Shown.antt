-- ===== src/LoadRoom/Shown.antt =====
-- frontend/src/hooks/useLoadRoom.ts: which room is shown.
use syncwatch.Shared.{
  ℕ, String, ◌≡◌, refl, ap, ◌∙◌, inl, inr, Bool, Bool-cases, true, false, Option, List, [], ◌∷◌,
  arith, ◌==◌, not, ◌&&◌, any, filter,
}
use syncwatch.RoomPage.{ChatHistory}
use syncwatch.LoadRoom.{
  Loader, RoomAnswer, found, failed, start, on_room, answer_room, answer_history,
}

-- The page goes to a room, or the server answers one of its runs.
pub data Event : Type 0 where
  starts : String → Event
  room : (run : ℕ) → RoomAnswer → Event
  history : (run : ℕ) → Option ChatHistory → Event

abbrev pub step : Event → Loader → Loader
step (starts room_id) l = start room_id l
step (room run answer) l = answer_room run answer l
step (history run answer) l = answer_history run answer l

unfoldable pub run : List Event → Loader → Loader
run [] l = l
run (e ∷ es) l = run es (step e l)

abbrev pub is_start : Event → Bool
is_start (starts room_id) = true
is_start _ = false

-- An answer to this run.
abbrev pub is_of : ℕ → Event → Bool
is_of n (starts room_id) = false
is_of n (room run answer) = run == n
is_of n (history run answer) = run == n

-- The room that this run asked for, or the failure to get it.
abbrev pub is_room_of : ℕ → Event → Bool
is_room_of n (room run answer) = run == n
is_room_of n _ = false

latest-on_room : (answer : RoomAnswer) (l : Loader) → (on_room answer l).latest ≡ l.latest
unfolding on_room
latest-on_room (found detail) l = refl
latest-on_room (failed status) l = refl

loading-on_room : (answer : RoomAnswer) (l : Loader) → (on_room answer l).loading ≡ false
unfolding on_room
loading-on_room (found detail) l = refl
loading-on_room (failed status) l = refl

-- What an event that is no start does to the number of the run and to the spinner.
step_lem :
    (e : Event) (l : Loader)
    → is_start e ≡ false
    → ((step e l).latest ≡ l.latest)
      × ((step e l).loading ≡ (l.loading && not (is_room_of l.latest e)))
unfolding answer_room answer_history
step_lem (starts room_id) l h = absurd (ground arith)
step_lem (room run answer) l h = elim (Bool-cases (run == l.latest)) [
  | inl this ↦ rw this (latest-on_room answer l, ground (arith, loading-on_room answer l))
  | inr other ↦ rw other (refl, ground arith)
]
step_lem (history run answer) l h = elim (Bool-cases (run == l.latest)) [
  | inl this ↦ rw this (refl, ground arith)
  | inr other ↦ rw other (refl, ground arith)
]

step-late : (e : Event) (l : Loader) → is_start e ≡ false → is_of l.latest e ≡ false → step e l ≡ l
unfolding answer_room answer_history
step-late (starts room_id) l h k = absurd (ground arith)
step-late (room run answer) l h k = rw k
step-late (history run answer) l h k = rw k

kept_out :
    (e : Event) (es : List Event) (l : Loader)
    → is_of l.latest e ≡ false
    → run (filter (is_of l.latest) es) l ≡ run (filter (is_of l.latest) (e ∷ es)) l
kept_out e es l other = rw other

-- While the page stays in a room, the answers to the loads of earlier rooms make no difference, however
-- they are mixed with its own; and it stops loading exactly when the answer to its own load is there,
-- be it the room or a failure.
pub late_answers_ignored :
    (es : List Event) (l : Loader)
    → any is_start es ≡ false
    → (run es l ≡ run (filter (is_of l.latest) es) l)
      × ((run es l).loading ≡ (l.loading && not (any (is_room_of l.latest) es)))
unfolding run
late_answers_ignored [] l h = (refl, ground arith)
late_answers_ignored (e ∷ es) l h =
    let quiet : is_start e ≡ false = ground arith in
    let (same, spin) = step_lem e l quiet in
    let (rest, spins) = late_answers_ignored es (step e l) (ground arith) in
    let rest' = rest ∙ ap (λ n. run (filter (is_of n) es) (step e l)) same in
    let spins' = spins ∙ ap (λ n. (step e l).loading && not (any (is_room_of n) es)) same in
    (
      elim (Bool-cases (is_of l.latest e)) [
        | inl this ↦ rw this rest'
        | inr other ↦
            rest'
            ∙ ap (run (filter (is_of l.latest) es)) (step-late e l quiet other)
            ∙ kept_out e es l other
      ],
      spins' ∙ (ground (arith, spin)),
    )
