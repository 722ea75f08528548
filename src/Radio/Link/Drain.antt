-- ===== src/Radio/Link/Drain.antt =====
-- Once nothing arrives any more, the scheduler of radio/mod.rs executes all that waits.
use cathub.Prelude.{
  ℕ, zero, suc, ◌+◌, ◌-◌, ◌≤◌, ◌≡◌, refl, sym, ap, ◌∙◌, ◌⊎◌, inl, inr, List, [], ◌∷◌, ◌++◌, Option,
  none, some, arith, ◌==◌, retain-append, append-nil, length,
}
use cathub.Radio.Link.Scheduler.{
  Operation, Queues, scan, poll, pop_at, pop_best, select_next, executed, round, serve,
}
use cathub.Radio.Link.Selection.{IsDrained, select_next-Least}
use cathub.Radio.Link.Fifo.{ops_of, queue_of, arrivals, serve-queue_of, serve-refines}

abbrev pub total : Queues → ℕ
total [] = 0
total ((id, q) ∷ queues) = length q + total queues

-- Rounds in which nothing arrives.
abbrev pub idle : ℕ → List (List Operation)
idle zero = []
idle (suc n) = [] ∷ idle n

drained-total : (queues : Queues) → IsDrained queues → total queues ≡ 0
drained-total [] d = refl
drained-total ((id, []) ∷ queues) d = omega (arith, drained-total queues d)
drained-total ((id, op ∷ q) ∷ queues) d = absurd d

total-IsDrained : (queues : Queues) → total queues ≡ 0 → IsDrained queues
total-IsDrained [] e = tt
total-IsDrained ((id, []) ∷ queues) e = total-IsDrained queues (omega (arith, e))
total-IsDrained ((id, op ∷ q) ∷ queues) e = absurd (omega (arith, e))

drained-queue_of : (s : ℕ) (queues : Queues) → IsDrained queues → queue_of s queues ≡ []
drained-queue_of s [] d = refl
drained-queue_of s ((id, []) ∷ queues) d = ground (arith, drained-queue_of s queues d)
drained-queue_of s ((id, op ∷ q) ∷ queues) d = absurd d

pop_at-total :
    (idx : ℕ) (queues : Queues)
    → let r = pop_at idx queues in total r.1 + length (executed r.0) ≡ total queues
unfolding pop_at
pop_at-total idx [] = refl
pop_at-total zero ((id, []) ∷ queues) = omega arith
pop_at-total zero ((id, op ∷ q) ∷ queues) = omega arith
pop_at-total (suc idx) ((id, q) ∷ queues) = omega (arith, pop_at-total idx queues)

pop_best-total :
    (best : Option ℕ) (queues : Queues)
    → let r = pop_best best queues in total r.1 + length (executed r.0) ≡ total queues
pop_best-total none queues = omega arith
pop_best-total (some idx) queues = pop_at-total idx queues

select_next-count :
    (queues : Queues)
    → let r = select_next queues in total r.1 + length (executed r.0) ≡ total queues
unfolding select_next
select_next-count queues = pop_best-total (scan 0 queues none poll) queues

select_next-total :
    (queues : Queues) → (total queues ≡ 0) ⊎ (total (select_next queues).1 + 1 ≡ total queues)
select_next-total queues = elim (select_next-Least queues) [
  | inl (drained, e) ↦ inl (drained-total queues drained)
  | inr (op, left, chosen, takes, least) ↦ inr (
      ap (λ r. total (select_next queues).1 + length (executed r.0)) (sym chosen)
      ∙ select_next-count queues)
]

round-total : (queues : Queues) → total (round [] queues).0 ≤ total queues - 1
unfolding round
round-total queues = elim (select_next-total queues) [
  | inl e ↦ omega (arith, e, select_next-count queues)
  | inr e ↦ omega (arith, e)
]

serve-idle : (n : ℕ) (queues : Queues) → total queues ≤ n → IsDrained (serve (idle n) queues).0
unfolding serve
serve-idle zero queues h = total-IsDrained queues (omega arith)
serve-idle (suc n) queues h = serve-idle n (round [] queues).0 (omega (arith, round-total queues))

arrivals-idle : (n : ℕ) → arrivals (idle n) ≡ []
arrivals-idle zero = refl
arrivals-idle (suc n) = arrivals-idle n

-- After any history, as many further rounds as there are waiting operations execute all of them:
-- what a session was served is then exactly what it submitted, in order.
pub serve-drains :
    (s n : ℕ) (rounds : List (List Operation))
    → total (serve rounds []).0 ≤ n
    → let before = serve rounds [] in
      let after = serve (idle n) before.0 in
      IsDrained after.0 × (ops_of s (before.1 ++ after.1) ≡ ops_of s (arrivals rounds))
serve-drains s n rounds h =
    let before = serve rounds [] in
    let after = serve (idle n) before.0 in
    let drained = serve-idle n before.0 h in
    let (_, owned) = serve-queue_of s rounds [] tt in
    let (e, _) = serve-queue_of s (idle n) before.0 owned in
    let served : ops_of s after.1 ≡ queue_of s before.0 =
      sym (append-nil (ops_of s after.1))
      ∙ ap (λ q. ops_of s after.1 ++ q) (sym (drained-queue_of s after.0 drained))
      ∙ sym e
      ∙ ap (λ ops. queue_of s before.0 ++ ops_of s ops) (arrivals-idle n)
      ∙ append-nil (queue_of s before.0) in
    (
      drained,
      retain-append (λ o. o.session_id == s) before.1 after.1
          ∙ ap (λ q. ops_of s before.1 ++ q) served
          ∙ sym (serve-refines s rounds),
    )
