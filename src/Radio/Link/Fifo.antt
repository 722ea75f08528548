-- ===== src/Radio/Link/Fifo.antt =====
-- The scheduler of radio/mod.rs as one first-in first-out queue for each session.
use cathub.Prelude.{
  ℕ, zero, suc, ◌≡◌, refl, sym, ap, ◌∙◌, inl, inr, Bool, false, ◌||◌, List, [], ◌∷◌, ◌++◌, none,
  arith, ◌==◌, ==_iff, if◌then◌else◌, Bool-cases, Option-cases, retain, retain-append, All,
  append_assoc, append-nil, or_right,
}
use cathub.Radio.Link.Scheduler.{
  Operation, Queues, enqueue, scan, poll, pop_at, select_next, enqueue_all, executed, round, serve,
}

-- The operations of a session, in order, and its queue.
abbrev pub ops_of : ℕ → List Operation → List Operation
ops_of s = retain (λ op. op.session_id == s)

abbrev pub queue_of : ℕ → Queues → List Operation
queue_of s [] = []
queue_of s ((id, q) ∷ queues) = if id == s then q else queue_of s queues

abbrev has_id : ℕ → Queues → Bool
has_id s [] = false
has_id s ((id, q) ∷ queues) = id == s || has_id s queues

-- Each session has one queue, and the queue has operations of that session only.
abbrev pub IsOwned : Queues → Type 0
IsOwned [] = Unit {0}
IsOwned ((id, q) ∷ queues) =
    (has_id id queues ≡ false) × All (λ op. op.session_id ≡ id) q × IsOwned queues

enqueue-queue_of :
    (s : ℕ) (op : Operation) (queues : Queues)
    → queue_of s (enqueue op queues) ≡ queue_of s queues ++ ops_of s (op ∷ [])
unfolding enqueue
enqueue-queue_of s op [] = refl
enqueue-queue_of s op ((id, q) ∷ queues) =
    ground (arith, enqueue-queue_of s op queues, append-nil q, append-nil (queue_of s queues))

enqueue-has_id :
    (s : ℕ) (op : Operation) (queues : Queues)
    → has_id s (enqueue op queues) ≡ (has_id s queues || op.session_id == s)
unfolding enqueue
enqueue-has_id s op [] = ground arith
enqueue-has_id s op ((id, q) ∷ queues) = ground (arith, enqueue-has_id s op queues)

All-concat :
    (s : ℕ) (op : Operation) (q : List Operation)
    → op.session_id ≡ s
    → All (λ o. o.session_id ≡ s) q
    → All (λ o. o.session_id ≡ s) (q ++ op ∷ [])
All-concat s op [] e h = (e, tt)
All-concat s op (o ∷ q) e h = (h.0, All-concat s op q e h.1)

enqueue-IsOwned : (op : Operation) (queues : Queues) → IsOwned queues → IsOwned (enqueue op queues)
unfolding enqueue
enqueue-IsOwned op [] w = (refl, (refl, tt), tt)
enqueue-IsOwned op ((id, q) ∷ queues) (fresh, home, w) = elim (Bool-cases (id == op.session_id)) [
  | inl e ↦ rw e (fresh, All-concat id op q (ground (arith, e)) home, w)
  | inr n ↦
      rw n (
        enqueue-has_id id op queues ∙ (ground (arith, fresh, n)),
        home,
        enqueue-IsOwned op queues w,
      )
]

pop_at-has_id : (s idx : ℕ) (queues : Queues) → has_id s (pop_at idx queues).1 ≡ has_id s queues
unfolding pop_at
pop_at-has_id s idx [] = refl
pop_at-has_id s zero ((id, []) ∷ queues) = refl
pop_at-has_id s zero ((id, op ∷ q) ∷ queues) = refl
pop_at-has_id s (suc idx) ((id, q) ∷ queues) = ap (◌||◌ (id == s)) (pop_at-has_id s idx queues)

pop_at-IsOwned : (idx : ℕ) (queues : Queues) → IsOwned queues → IsOwned (pop_at idx queues).1
unfolding pop_at
pop_at-IsOwned idx [] w = tt
pop_at-IsOwned zero ((id, []) ∷ queues) w = w
pop_at-IsOwned zero ((id, op ∷ q) ∷ queues) (fresh, home, w) = (fresh, home.1, w)
pop_at-IsOwned (suc idx) ((id, q) ∷ queues) (fresh, home, w) =
    (pop_at-has_id id idx queues ∙ fresh, home, pop_at-IsOwned idx queues w)

-- A session without a queue has nothing popped.
pop_at-foreign :
    (s idx : ℕ) (queues : Queues)
    → IsOwned queues
    → has_id s queues ≡ false
    → ops_of s (executed (pop_at idx queues).0) ≡ []
unfolding pop_at
pop_at-foreign s idx [] w n = refl
pop_at-foreign s zero ((id, []) ∷ queues) w n = refl
pop_at-foreign s zero ((id, op ∷ q) ∷ queues) w n = ground (arith, w.1.0, n)
pop_at-foreign s (suc idx) ((id, q) ∷ queues) w n = pop_at-foreign s idx queues w.2 (or_right _ _ n)

pop_at-queue_of :
    (s idx : ℕ) (queues : Queues)
    → IsOwned queues
    → let r = pop_at idx queues in queue_of s queues ≡ ops_of s (executed r.0) ++ queue_of s r.1
unfolding pop_at
pop_at-queue_of s idx [] w = refl
pop_at-queue_of s zero ((id, []) ∷ queues) w = refl
pop_at-queue_of s zero ((id, op ∷ q) ∷ queues) w = ground (arith, w.1.0)
pop_at-queue_of s (suc idx) ((id, q) ∷ queues) w = elim (Bool-cases (id == s)) [
  | inl e ↦
      let same = (==_iff id s).0 e in
      rw e (
        ap (λ front. front ++ q)
          (sym (pop_at-foreign s idx queues w.2 (ap (λ k. has_id k queues) (sym same) ∙ w.0))))
  | inr n ↦ rw n (pop_at-queue_of s idx queues w.2)
]

select_next-queue_of :
    (s : ℕ) (queues : Queues)
    → IsOwned queues
    → let r = select_next queues in
      (queue_of s queues ≡ ops_of s (executed r.0) ++ queue_of s r.1) × IsOwned r.1
unfolding select_next
select_next-queue_of s queues w = elim (Option-cases (scan 0 queues none poll)) [
  | inl e ↦ rw e (refl, w)
  | inr (idx, e) ↦ rw e (pop_at-queue_of s idx queues w, pop_at-IsOwned idx queues w)
]

enqueue_all-queue_of :
    (s : ℕ) (ops : List Operation) (queues : Queues)
    → IsOwned queues
    → (queue_of s (enqueue_all ops queues) ≡ queue_of s queues ++ ops_of s ops)
      × IsOwned (enqueue_all ops queues)
enqueue_all-queue_of s [] queues w = (sym (append-nil (queue_of s queues)), w)
enqueue_all-queue_of s (op ∷ ops) queues w =
    let (e, owned) = enqueue_all-queue_of s ops (enqueue op queues) (enqueue-IsOwned op queues w) in
    (
      e
          ∙ ap (λ q. q ++ ops_of s ops) (enqueue-queue_of s op queues)
          ∙ append_assoc (queue_of s queues) (ops_of s (op ∷ [])) (ops_of s ops)
          ∙ ap (λ q. queue_of s queues ++ q)
              (sym (retain-append (λ o. o.session_id == s) (op ∷ []) ops)),
      owned,
    )

-- What has arrived over the rounds.
abbrev pub arrivals : List (List Operation) → List Operation
arrivals [] = []
arrivals (ops ∷ rounds) = ops ++ arrivals rounds

round-queue_of :
    (s : ℕ) (ops : List Operation) (queues : Queues)
    → IsOwned queues
    → let r = round ops queues in
      (queue_of s queues ++ ops_of s ops ≡ ops_of s r.1 ++ queue_of s r.0) × IsOwned r.0
unfolding round
round-queue_of s ops queues w =
    let (e, owned) = enqueue_all-queue_of s ops queues w in
    let (f, left) = select_next-queue_of s (enqueue_all ops queues) owned in (sym e ∙ f, left)

pub serve-queue_of :
    (s : ℕ) (rounds : List (List Operation)) (queues : Queues)
    → IsOwned queues
    → let r = serve rounds queues in
      (queue_of s queues ++ ops_of s (arrivals rounds) ≡ ops_of s r.1 ++ queue_of s r.0)
      × IsOwned r.0
unfolding serve
serve-queue_of s [] queues w = (append-nil (queue_of s queues), w)
serve-queue_of s (ops ∷ rounds) queues w =
    let (left, now) = round ops queues in
    let (last, later) = serve rounds left in
    let (e, owned) = round-queue_of s ops queues w in
    let (f, kept) = serve-queue_of s rounds left owned in
    (
      ap (λ o. queue_of s queues ++ o)
            (retain-append (λ o. o.session_id == s) ops (arrivals rounds))
          ∙ sym (append_assoc (queue_of s queues) (ops_of s ops) (ops_of s (arrivals rounds)))
          ∙ ap (λ q. q ++ ops_of s (arrivals rounds)) e
          ∙ append_assoc (ops_of s now) (queue_of s left) (ops_of s (arrivals rounds))
          ∙ ap (λ q. ops_of s now ++ q) f
          ∙ sym (append_assoc (ops_of s now) (ops_of s later) (queue_of s last))
          ∙ ap (λ q. q ++ queue_of s last) (sym (retain-append (λ o. o.session_id == s) now later)),
      kept,
    )

-- To each session the scheduler is a first-in first-out queue of its own: over any history, what
-- was executed for it, and then what waits for it, is what it submitted, in order.
pub serve-refines :
    (s : ℕ) (rounds : List (List Operation))
    → let r = serve rounds [] in ops_of s (arrivals rounds) ≡ ops_of s r.1 ++ queue_of s r.0
serve-refines s rounds = (serve-queue_of s rounds [] tt).0
