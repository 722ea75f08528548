-- ===== src/Radio/Link/Scheduler.antt =====
-- The operation scheduler of radio/mod.rs: a queue for each session, and the choice of the next
-- operation. The reply channel of an operation is a number, and so is a session.
use cathub.Prelude.{
  ℕ, zero, suc, List, [], ◌∷◌, ◌++◌, Option, none, some, ◌==◌, ltb, if◌then◌else◌, Bytes,
}
use cathub.Radio.Model.{StateMutation}

pub data Priority : Type 0 where
  ptt write read poll : Priority

-- The order of the discriminants: a lower one wins.
abbrev pub rank : Priority → ℕ
rank ptt = 0
rank write = 1
rank read = 2
rank poll = 3

pub data OpKind : Type 0 where
  poll_cycle : OpKind
  apply : StateMutation → OpKind
  passthrough : Bytes → OpKind

pub record Operation : Type 0 where
  pub session_id : ℕ
  pub priority : Priority
  pub kind : OpKind
  pub reply : ℕ

abbrev pub Queue : Type 0
Queue = ℕ × List Operation

abbrev pub Queues : Type 0
Queues = List Queue

unfoldable pub enqueue : Operation → Queues → Queues
enqueue op [] = (op.session_id, op ∷ []) ∷ []
enqueue op ((id, q) ∷ queues) =
    if id == op.session_id then (id, q ++ op ∷ []) ∷ queues else (id, q) ∷ enqueue op queues

-- The loop of `select_next`: the index of the best head so far, and its priority.
unfoldable pub scan : ℕ → Queues → Option ℕ → Priority → Option ℕ
scan idx [] best best_priority = best
scan idx ((id, []) ∷ queues) best best_priority = scan (suc idx) queues best best_priority
scan idx ((id, head ∷ q) ∷ queues) none best_priority =
    scan (suc idx) queues (some idx) head.priority
scan idx ((id, head ∷ q) ∷ queues) (some best) best_priority =
    if ltb (rank head.priority) (rank best_priority)
    then scan (suc idx) queues (some idx) head.priority
    else scan (suc idx) queues (some best) best_priority

abbrev pub keep {ℓ} : {A : Type ℓ} → Queue → A × Queues → A × Queues
keep q (a, queues) = (a, q ∷ queues)

-- `queues.get_mut(idx).and_then(|(_, q)| q.pop_front())`.
unfoldable pub pop_at : ℕ → Queues → Option Operation × Queues
pop_at idx [] = (none, [])
pop_at zero ((id, []) ∷ queues) = (none, (id, []) ∷ queues)
pop_at zero ((id, op ∷ q) ∷ queues) = (some op, (id, q) ∷ queues)
pop_at (suc idx) (q ∷ queues) = keep q (pop_at idx queues)

abbrev pub pop_best : Option ℕ → Queues → Option Operation × Queues
pop_best none queues = (none, queues)
pop_best (some idx) queues = pop_at idx queues

unfoldable pub select_next : Queues → Option Operation × Queues
select_next queues = pop_best (scan 0 queues none poll) queues

abbrev pub enqueue_all : List Operation → Queues → Queues
enqueue_all [] queues = queues
enqueue_all (op ∷ ops) queues = enqueue_all ops (enqueue op queues)

abbrev pub executed {ℓ} : {A : Type ℓ} → Option A → List A
executed none = []
executed (some op) = op ∷ []

-- A round of the task: it takes what has arrived, and executes one operation, if there is one.
unfoldable pub round : List Operation → Queues → Queues × List Operation
round arrived queues =
    let (chosen, left) = select_next (enqueue_all arrived queues) in (left, executed chosen)

-- The task over the arrivals of its rounds: the queues left, and the operations executed in order.
unfoldable pub serve : List (List Operation) → Queues → Queues × List Operation
serve [] queues = (queues, [])
serve (arrived ∷ rounds) queues =
    let (left, now) = round arrived queues in
    let (last, later) = serve rounds left in (last, now ++ later)
