-- ===== src/Radio/Link/Selection.antt =====
-- Which operation the scheduler of radio/mod.rs takes next.
use cathub.Prelude.{
  ℕ, zero, suc, ◌+◌, ◌≤◌, ◌<◌, ◌≡◌, refl, ap, subst, ◌∙◌, ◌⊎◌, inl, inr, List, [], ◌∷◌, Option,
  none, some, arith, ltb, Bool-cases,
}
use cathub.Radio.Link.Scheduler.{
  Priority, poll, rank, Operation, Queue, Queues, scan, pop_at, pop_best, select_next,
}

-- Every head of a queue has at least this rank.
abbrev pub Least : ℕ → Queues → Type 0
Least r [] = Unit {0}
Least r ((id, []) ∷ queues) = Least r queues
Least r ((id, op ∷ q) ∷ queues) = (r ≤ rank op.priority) × Least r queues

Least-mono : (r s : ℕ) (queues : Queues) → r ≤ s → Least s queues → Least r queues
Least-mono r s [] h l = tt
Least-mono r s ((id, []) ∷ queues) h l = Least-mono r s queues h l
Least-mono r s ((id, op ∷ q) ∷ queues) h l = (omega (arith, l.0), Least-mono r s queues h l.1)

abbrev head_at : ℕ → Queues → Option Operation
head_at m [] = none
head_at zero ((id, []) ∷ queues) = none
head_at zero ((id, op ∷ q) ∷ queues) = some op
head_at (suc m) (q ∷ queues) = head_at m queues

-- The best index stays, or a better head was found further on.
abbrev Found : ℕ → ℕ → ℕ → Queues → ℕ → Type 0
Found k i p queues j =
    ((j ≡ i) × Least p queues)
    ⊎ ((m : ℕ) × (op : Operation) × (j ≡ k + m)
        × (head_at m queues ≡ some op)
        × (rank op.priority < p)
        × Least (rank op.priority) queues)

scan-Found :
    (k i : ℕ) (p : Priority) (queues : Queues)
    → (j : ℕ) × (scan k queues (some i) p ≡ some j) × Found k i (rank p) queues j
unfolding scan
scan-Found k i p [] = (i, refl, inl (refl, tt))
scan-Found k i p ((id, []) ∷ queues) =
    let (j, e, found) = scan-Found (suc k) i p queues in
    (
      j,
      e,
      elim found [
        | inl (same, least) ↦ inl (same, least)
        | inr (m, op, at, head, lower, least) ↦
            inr (suc m, op, omega (arith, at), head, lower, least)
      ],
    )
scan-Found k i p ((id, h ∷ q) ∷ queues) = elim (Bool-cases (ltb (rank h.priority) (rank p))) [
  | inl better ↦
      let (j, e, found) = scan-Found (suc k) k h.priority queues in
      let lower : rank h.priority < rank p = ground (arith, better) in
      (
        j,
        rw better e,
        elim found [
          | inl (same, least) ↦ inr (0, h, omega (arith, same), refl, lower, (omega arith, least))
          | inr (m, op, at, head, below, least) ↦
              inr (suc m, op, omega (arith, at), head, omega arith, (omega arith, least))
        ],
      )
  | inr not_better ↦
      let (j, e, found) = scan-Found (suc k) i p queues in
      let higher : rank p ≤ rank h.priority = ground (arith, not_better) in
      (
        j,
        rw not_better e,
        elim found [
          | inl (same, least) ↦ inl (same, (higher, least))
          | inr (m, op, at, head, below, least) ↦
              inr (suc m, op, omega (arith, at), head, below, (omega arith, least))
        ],
      )
]

-- No session has a pending operation.
abbrev pub IsDrained : Queues → Type 0
IsDrained [] = Unit {0}
IsDrained ((id, []) ∷ queues) = IsDrained queues
IsDrained ((id, op ∷ q) ∷ queues) = ⊥

abbrev First : ℕ → Queues → Type 0
First k queues =
    (IsDrained queues × (scan k queues none poll ≡ none))
    ⊎ ((m : ℕ) × (op : Operation) × (scan k queues none poll ≡ some (k + m))
        × (head_at m queues ≡ some op)
        × Least (rank op.priority) queues)

scan-First : (k : ℕ) (queues : Queues) → First k queues
unfolding scan
scan-First k [] = inl (tt, refl)
scan-First k ((id, []) ∷ queues) = elim (scan-First (suc k) queues) [
  | inl (drained, e) ↦ inl (drained, e)
  | inr (m, op, e, head, least) ↦ inr (suc m, op, e ∙ ap some (omega arith), head, least)
]
scan-First k ((id, h ∷ q) ∷ queues) =
    let (j, e, found) = scan-Found (suc k) k h.priority queues in
    elim found [
      | inl (same, least) ↦
          inr (0, h, e ∙ ap some (omega (arith, same)), refl, (omega arith, least))
      | inr (m, op, at, head, lower, least) ↦
          inr (suc m, op, e ∙ ap some (omega (arith, at)), head, (omega arith, least))
    ]

-- The head of one queue is taken, and nothing else is touched.
pub data Takes : Queues → Operation → Queues → Type 0 where
  here :
      (id : ℕ) (op : Operation) (q : List Operation) (queues : Queues)
      → Takes ((id, op ∷ q) ∷ queues) op ((id, q) ∷ queues)
  further :
      (q : Queue) (queues left : Queues) (op : Operation)
      → Takes queues op left
      → Takes (q ∷ queues) op (q ∷ left)

pop_at-Takes :
    (m : ℕ) (queues : Queues) (op : Operation)
    → head_at m queues ≡ some op
    → ((pop_at m queues).0 ≡ some op) × Takes queues op (pop_at m queues).1
unfolding pop_at
pop_at-Takes m [] op e = cc
pop_at-Takes zero ((id, []) ∷ queues) op e = cc
pop_at-Takes zero ((id, h ∷ q) ∷ queues) op e =
    (e, subst (λ x. Takes ((id, h ∷ q) ∷ queues) x ((id, q) ∷ queues)) (cc e) (here id h q queues))
pop_at-Takes (suc m) (q ∷ queues) op e =
    let (popped, takes) = pop_at-Takes m queues op e in (popped, further q queues _ op takes)

-- The scheduler idles only when no session has a pending operation, and changes nothing then;
-- otherwise it takes the head off one queue, of a priority that no other head beats, and touches no
-- other operation.
pub select_next-Least :
    (queues : Queues)
    → (IsDrained queues × (select_next queues ≡ (none, queues)))
      ⊎ ((op : Operation) × (left : Queues) × (select_next queues ≡ (some op, left))
          × Takes queues op left
          × Least (rank op.priority) queues)
unfolding select_next
select_next-Least queues = elim (scan-First 0 queues) [
  | inl (drained, e) ↦ inl (drained, ap (λ best. pop_best best queues) e)
  | inr (m, op, e, head, least) ↦
      let (popped, takes) = pop_at-Takes m queues op head in
      inr (
        op,
        (pop_at m queues).1,
        ap (λ best. pop_best best queues) (e ∙ ap some (omega arith))
            ∙ ap (λ o. (o, (pop_at m queues).1)) popped,
        takes,
        least,
      )
]
