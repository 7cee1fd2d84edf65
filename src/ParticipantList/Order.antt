-- ===== src/ParticipantList/Order.antt =====
-- frontend/src/components/room/ParticipantList.tsx: the order of the list.
use syncwatch.Shared.{
  suc, ◌+◌, ◌≤◌, String, ◌≡◌, refl, sym, ap, ◌∙◌, Bool, Bool-cases, inl, inr, true, false, List, [],
  ◌∷◌, any, All, map, ltb, filter, length, str_eq, arith,
}
use syncwatch.Protocol.{WsParticipant}
use syncwatch.ParticipantList.{
  Sign, Texts, Row, row, ready_count, participant_list, compare, is_positive, insert_by, sort_onto,
  sorted_participants,
}

-- What is documented of a comparison of names: of two different directions one at most is positive, and what
-- is not behind is transitive.
pub record IsCollation (locale_compare : String → String → Sign) : Type 0 where
  pub antisymmetric :
      (a b : String)
      → is_positive (locale_compare a b) ≡ true
      → is_positive (locale_compare b a) ≡ false
  pub transitive :
      (a b c : String)
      → is_positive (locale_compare a b) ≡ false
      → is_positive (locale_compare b c) ≡ false
      → is_positive (locale_compare a c) ≡ false

length-all : (ps : List WsParticipant) → length (filter (λ p. true) ps) ≡ length ps
length-all [] = refl
length-all (p ∷ ps) = ap suc (length-all ps)

length-filter :
    (q : WsParticipant → Bool) (ps : List WsParticipant) → length (filter q ps) ≤ length ps
length-filter q [] = omega arith
length-filter q (p ∷ ps) = ground (arith, length-filter q ps)

pub any-count :
    (q : WsParticipant → Bool) (ps : List WsParticipant) → any q ps ≡ ltb 0 (length (filter q ps))
any-count q [] = refl
any-count q (p ∷ ps) = ground (arith, any-count q ps)

module _ (locale_compare : String → String → Sign) (host_id : String) where
  -- Nobody stands before somebody who is to be before him.
  abbrev pub goes_behind : WsParticipant → WsParticipant → Bool
  unfolding compare
  goes_behind x y = is_positive (compare locale_compare host_id x y)

  abbrev pub is_host : WsParticipant → Bool
  is_host p = str_eq p.user_id host_id

  abbrev pub Ordered : List WsParticipant → Type 0
  Ordered [] = Unit
  Ordered (p ∷ ps) = All (λ y. goes_behind p y ≡ false) ps × Ordered ps

  All-insert :
      (x p : WsParticipant) (xs : List WsParticipant)
      → goes_behind x p ≡ false
      → All (λ y. goes_behind x y ≡ false) xs
      → All (λ y. goes_behind x y ≡ false) (insert_by (compare locale_compare host_id) p xs)
  unfolding compare
  All-insert x p [] h a = (h, tt)
  All-insert x p (y ∷ ys) h a = elim (Bool-cases (goes_behind y p)) [
    | inl behind ↦ rw behind (h, a)
    | inr before ↦ rw before (a.0, All-insert x p ys h a.1)
  ]

  count-insert :
      (q : WsParticipant → Bool) (p : WsParticipant) (xs : List WsParticipant)
      → length (filter q (insert_by (compare locale_compare host_id) p xs))
        ≡ length (filter q (p ∷ xs))
  unfolding compare
  count-insert q p [] = refl
  count-insert q p (x ∷ xs) = elim (Bool-cases (goes_behind x p)) [
    | inl behind ↦ rw behind refl
    | inr before ↦ rw before (ground (arith, count-insert q p xs))
  ]

  count-sort_onto :
      (q : WsParticipant → Bool) (sorted ps : List WsParticipant)
      → length (filter q (sort_onto (compare locale_compare host_id) sorted ps))
        ≡ length (filter q sorted) + length (filter q ps)
  count-sort_onto q sorted [] = omega arith
  count-sort_onto q sorted (p ∷ ps) = ground (
    arith,
    count-sort_onto q (insert_by (compare locale_compare host_id) p sorted) ps,
    count-insert q p sorted,
  )

  pub count-sorted :
      (ps : List WsParticipant) (q : WsParticipant → Bool)
      → length (filter q (sorted_participants locale_compare host_id ps)) ≡ length (filter q ps)
  unfolding sorted_participants
  count-sorted ps q = omega (arith, count-sort_onto q [] ps)

  module _ (c : IsCollation locale_compare) where
    behind_asym : (x y : WsParticipant) → goes_behind x y ≡ true → goes_behind y x ≡ false
    unfolding compare
    behind_asym x y h = ground (arith, c.antisymmetric x.username y.username)

    behind_trans :
        (x y z : WsParticipant)
        → goes_behind x y ≡ false
        → goes_behind y z ≡ false
        → goes_behind x z ≡ false
    unfolding compare
    behind_trans x y z h k = ground (arith, c.transitive x.username y.username z.username)

    All-behind :
        (p x : WsParticipant) (xs : List WsParticipant)
        → goes_behind p x ≡ false
        → All (λ y. goes_behind x y ≡ false) xs
        → All (λ y. goes_behind p y ≡ false) xs
    All-behind p x [] h a = tt
    All-behind p x (y ∷ ys) h a = (behind_trans p x y h a.0, All-behind p x ys h a.1)

    insert-Ordered :
        (p : WsParticipant) (xs : List WsParticipant)
        → Ordered xs
        → Ordered (insert_by (compare locale_compare host_id) p xs)
    unfolding compare
    insert-Ordered p [] o = (tt, tt)
    insert-Ordered p (x ∷ xs) o = elim (Bool-cases (goes_behind x p)) [
      | inl behind ↦
          let before = behind_asym x p behind in
          rw behind ((before, All-behind p x xs before o.0), o)
      | inr before ↦ rw before (All-insert x p xs before o.0, insert-Ordered p xs o.1)
    ]

    sort_onto-Ordered :
        (sorted ps : List WsParticipant)
        → Ordered sorted
        → Ordered (sort_onto (compare locale_compare host_id) sorted ps)
    sort_onto-Ordered sorted [] o = o
    sort_onto-Ordered sorted (p ∷ ps) o =
        sort_onto-Ordered (insert_by (compare locale_compare host_id) p sorted) ps
          (insert-Ordered p sorted o)

    no-host-behind :
        (p : WsParticipant) (ps : List WsParticipant)
        → str_eq p.user_id host_id ≡ false
        → All (λ y. goes_behind p y ≡ false) ps
        → any is_host ps ≡ false
    unfolding compare
    no-host-behind p [] h a = refl
    no-host-behind p (y ∷ ys) h a = ground (arith, no-host-behind p ys h a.1, a.0)

    first-host :
        (ps : List WsParticipant)
        → Ordered ps
        → any is_host ps ≡ true
        → (first : WsParticipant) × (rest : List WsParticipant) × (ps ≡ first ∷ rest)
          × (is_host first ≡ true)
    first-host [] o h = absurd (ground arith)
    first-host (p ∷ ps) o h = (
      p,
      ps,
      refl,
      elim (Bool-cases (is_host p)) [
        | inl host ↦ host
        | inr other ↦ absurd (ground (arith, no-host-behind p ps other o.0))
      ],
    )

    sorted-Ordered :
        (ps : List WsParticipant) → Ordered (sorted_participants locale_compare host_id ps)
    unfolding sorted_participants
    sorted-Ordered ps = sort_onto-Ordered [] ps tt

    -- With a lawful comparison of names, and the host in the room, the list shows nobody before somebody who
    -- belongs before him; whatever is asked of participants, as many in the list satisfy it as in the room;
    -- it has one entry for each, in that order, with the label, the name, the badge and the mark of that
    -- participant; it counts them all, and no more as ready than there are; and the first entry is the
    -- host's and has the badge.
    pub participant_list_lem :
        (t : Texts) (me : String) (ps : List WsParticipant) (q : WsParticipant → Bool)
        → any is_host ps ≡ true
        → let shown = participant_list t locale_compare host_id me ps in
          let sorted = sorted_participants locale_compare host_id ps in
          Ordered sorted
          × (length (filter q sorted) ≡ length (filter q ps))
          × (shown.rows ≡ map (row t host_id me) sorted)
          × (shown.total ≡ length ps)
          × (shown.ready ≤ shown.total)
          × (first : Row) × (rest : List Row) × (shown.rows ≡ first ∷ rest)
          × (str_eq first.key host_id ≡ true)
          × (first.badge ≡ t.host_badge ∷ [])
    unfolding participant_list ready_count row
    participant_list_lem t me ps q h =
        let sorted = sorted_participants locale_compare host_id ps in
        let total = sym (length-all sorted) ∙ count-sorted ps (λ p. true) ∙ length-all ps in
        let here : any is_host sorted ≡ true =
          ground (arith, any-count is_host ps, any-count is_host sorted, count-sorted ps is_host) in
        let (first, rest, e, host) = first-host sorted (sorted-Ordered ps) here in
        (
          sorted-Ordered ps,
          count-sorted ps q,
          refl,
          total,
          omega (arith, total, length-filter (λ p. p.is_ready) ps),
          row t host_id me first,
          map (row t host_id me) rest,
          ap (map (row t host_id me)) e,
          host,
          rw host refl,
        )
