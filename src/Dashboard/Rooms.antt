-- ===== src/Dashboard/Rooms.antt =====
-- frontend/src/components/home/Dashboard.tsx: the order in which the rooms are shown.
use syncwatch.Shared.{
  ℕ, ◌≤◌, ◌<◌, String, ◌≡◌, refl, sym, ap, ◌∙◌, Bool, Bool-cases, inl, inr, false, List, [], ◌∷◌,
  ◌++◌, append-nil, append_assoc, All, filter, arith, ltb, ◌==◌,
}
use syncwatch.Dashboard.{Room, insert_room, sort_onto, sorted_rooms}

module _ (time : String → ℕ) where
  abbrev pub age : Room → ℕ
  age r = time r.created_at

  -- Newest first.
  abbrev pub NewestFirst : List Room → Type 0
  NewestFirst [] = Unit
  NewestFirst (r ∷ rooms) = All (λ x. age x ≤ age r) rooms × NewestFirst rooms

  abbrev pub made_at : ℕ → Room → Bool
  made_at t r = age r == t

  All-le :
      (t u : ℕ) (rooms : List Room)
      → t ≤ u
      → All (λ x. age x ≤ t) rooms
      → All (λ x. age x ≤ u) rooms
  All-le t u [] h k = tt
  All-le t u (r ∷ rooms) h k = (omega (arith, h, k.0), All-le t u rooms h k.1)

  All-insert :
      (t : ℕ) (r : Room) (rooms : List Room)
      → age r ≤ t
      → All (λ x. age x ≤ t) rooms
      → All (λ x. age x ≤ t) (insert_room time r rooms)
  All-insert t r [] h k = (h, tt)
  All-insert t r (x ∷ rooms) h k = elim (Bool-cases (ltb (age x) (age r))) [
    | inl newer ↦ rw newer (h, k)
    | inr older ↦ rw older (k.0, All-insert t r rooms h k.1)
  ]

  insert-NewestFirst :
      (r : Room) (rooms : List Room) → NewestFirst rooms → NewestFirst (insert_room time r rooms)
  insert-NewestFirst r [] s = (tt, tt)
  insert-NewestFirst r (x ∷ rooms) s = elim (Bool-cases (ltb (age x) (age r))) [
    | inl newer ↦
        let le : age x ≤ age r = ground arith in
        rw newer ((le, All-le (age x) (age r) rooms le s.0), s)
    | inr older ↦
        let le : age r ≤ age x = ground arith in
        rw older (All-insert (age x) r rooms le s.0, insert-NewestFirst r rooms s.1)
  ]

  filter-none :
      (t u : ℕ) (rooms : List Room)
      → u < t
      → All (λ x. age x ≤ u) rooms
      → filter (made_at t) rooms ≡ []
  filter-none t u [] h k = refl
  filter-none t u (r ∷ rooms) h k =
      let other : age r == t ≡ false = ground (arith, k.0) in rw other (filter-none t u rooms h k.1)

  filter-before :
      (t : ℕ) (r x : Room) (rooms : List Room)
      → age x < age r
      → NewestFirst (x ∷ rooms)
      → filter (made_at t) (r ∷ x ∷ rooms)
        ≡ filter (made_at t) (x ∷ rooms) ++ filter (made_at t) (r ∷ [])
  filter-before t r x rooms h s = elim (Bool-cases (made_at t r)) [
    | inr other ↦ rw other (sym (append-nil (filter (made_at t) (x ∷ rooms))))
    | inl same ↦
        let older : age x < t = ground arith in
        let gone = filter-none t (age x) (x ∷ rooms) older (omega arith, s.0) in
        rw same (ap (◌∷◌ r) gone ∙ sym (ap (λ l. l ++ r ∷ []) gone))
  ]

  filter-insert :
      (t : ℕ) (r : Room) (rooms : List Room)
      → NewestFirst rooms
      → filter (made_at t) (insert_room time r rooms)
        ≡ filter (made_at t) rooms ++ filter (made_at t) (r ∷ [])
  filter-insert t r [] s = refl
  filter-insert t r (x ∷ rooms) s = elim (Bool-cases (ltb (age x) (age r))) [
    | inl newer ↦ rw newer (filter-before t r x rooms (ground arith) s)
    | inr older ↦ elim (Bool-cases (made_at t x)) [
      | inl yes_ ↦ rw older (rw yes_ (ap (◌∷◌ x) (filter-insert t r rooms s.1)))
      | inr no_ ↦ rw older (rw no_ (filter-insert t r rooms s.1))
    ]
  ]

  filter-cons :
      (t : ℕ) (r : Room) (rooms : List Room)
      → filter (made_at t) (r ∷ []) ++ filter (made_at t) rooms ≡ filter (made_at t) (r ∷ rooms)
  filter-cons t r rooms = elim (Bool-cases (made_at t r)) [
    | inl same ↦ rw same refl
    | inr other ↦ rw other refl
  ]

  sort_onto_lem :
      (t : ℕ) (sorted rooms : List Room)
      → NewestFirst sorted
      → NewestFirst (sort_onto time sorted rooms)
        × (filter (made_at t) (sort_onto time sorted rooms)
            ≡ filter (made_at t) sorted ++ filter (made_at t) rooms)
  sort_onto_lem t sorted [] s = (s, sym (append-nil (filter (made_at t) sorted)))
  sort_onto_lem t sorted (r ∷ rooms) s =
      let (s', e) =
        sort_onto_lem t (insert_room time r sorted) rooms (insert-NewestFirst r sorted s) in
      (
        s',
        e
            ∙ ap (λ l. l ++ filter (made_at t) rooms) (filter-insert t r sorted s)
            ∙ append_assoc (filter (made_at t) sorted) (filter (made_at t) (r ∷ []))
                (filter (made_at t) rooms)
            ∙ ap (◌++◌ (filter (made_at t) sorted)) (filter-cons t r rooms),
      )

  -- The dashboard shows the newest room first, and of each time just the rooms that the server listed with
  -- it, in the server's order.
  pub sorted_rooms_lem :
      (rooms : List Room)
      → NewestFirst (sorted_rooms time rooms)
        × ((t : ℕ) → filter (made_at t) (sorted_rooms time rooms) ≡ filter (made_at t) rooms)
  unfolding sorted_rooms
  sorted_rooms_lem rooms = ((sort_onto_lem 0 [] rooms tt).0, λ t. (sort_onto_lem t [] rooms tt).1)
