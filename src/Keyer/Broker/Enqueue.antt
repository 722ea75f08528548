-- ===== src/Keyer/Broker/Enqueue.antt =====
-- New jobs in winkeyer/broker.rs: `enqueue` starts, appends to, or queues a job, or refuses it.
use cathub.Prelude.{
  ℕ, suc, ◌+◌, ◌≤◌, ◌<◌, ◌≡◌, refl, ap, subst, ◌∙◌, inl, inr, Bool, true, false, not, ◌||◌, List,
  [], ◌∷◌, ◌++◌, Option, none, some, arith, ltb, leb, length, length-append, All, All-append,
  is_empty, Bool-cases, Bytes, min,
}
use cathub.Prelude.Map.{lookup}
use cathub.Keyer.Broker.State.{
  BrokerCore, Job, ActiveJob, ClientState, TransmitPayload, SpeedMode, u64_max, max_job_bytes,
  max_queued_jobs,
}
use cathub.Keyer.Broker.Requests.{
  Reply, enqueue, accept, queue_job, start_if_idle, continue_active, continue_last, get_last?,
  extend_last, extend_job, overflows, continues,
}
use cathub.Keyer.Broker.Jobs.{active_jobs}
use cathub.Keyer.Broker.Invariant.{Inv, IsSized, Chain, Chain-concat, IsFresh, start-Inv}

abbrev pub IsPayload : TransmitPayload → Type 0
IsPayload p = (0 < length p.wire_bytes) × (length p.wire_bytes ≤ max_job_bytes)

All-active :
    (a : Option ActiveJob) (q : List Job) (j : Job)
    → All IsSized (active_jobs a ++ q)
    → IsSized j
    → All IsSized (active_jobs a ++ (q ++ j ∷ []))
All-active none q j h k = All-append IsSized q (j ∷ []) h (k, tt)
All-active (some a) q j h k = (h.0, All-append IsSized q (j ∷ []) h.1 (k, tt))

Chain-active :
    (a : Option ActiveJob) (q : List Job) (j : Job) (next : ℕ)
    → j.id ≡ next
    → Chain 0 (active_jobs a ++ q) next
    → Chain 0 (active_jobs a ++ (q ++ j ∷ [])) (next + 1)
Chain-active none q j next e c = Chain-concat 0 q next j (omega arith) e c
Chain-active (some a) q j next e c =
    (c.0, omega arith, Chain-concat (suc a.job.id) q next j c.1 e c.2)

IsFresh-queued :
    (a : Option ActiveJob) (q : List Job) (j : Job) (next : ℕ)
    → j.id ≡ next
    → IsFresh (active_jobs a ++ q) next
    → IsFresh (active_jobs a ++ (q ++ j ∷ [])) (min (next + 1) u64_max)
IsFresh-queued a q j next e f lt =
    subst (λ k. Chain 0 (active_jobs a ++ (q ++ j ∷ [])) k) (omega arith)
      (Chain-active a q j next e (f (omega arith)))

module _ (client : ClientState) (id : ℕ) (payload : TransmitPayload) (speed : Option SpeedMode)
    (stream : Bool) (now clock : ℕ) where
  -- The job that `enqueue` makes.
  abbrev pub new_job : ℕ → Job
  new_job next = record {
    id = next;
    client_id = id;
    payload = payload;
    speed = elim speed [ none ↦ client.desired_speed | some s ↦ s ];
    queued_at = now;
    stream = stream;
  }

  abbrev queued : BrokerCore → BrokerCore
  queued b = record b {
    next_job_id = min (b.next_job_id + 1) u64_max;
    queue = b.queue ++ new_job b.next_job_id ∷ [];
  }

  start_if_idle-Inv :
      (a : Option ActiveJob) (b : BrokerCore)
      → b.active ≡ a
      → length b.queue < max_queued_jobs
      → IsPayload payload
      → Inv b
      → Inv (start_if_idle a (queued b) clock).0
  unfolding start_if_idle
  start_if_idle-Inv none b e h p v =
      start-Inv (queued b) clock e
        (omega (arith, length-append b.queue (new_job b.next_job_id ∷ [])))
        (subst (λ x. All IsSized (active_jobs x ++ (queued b).queue)) e
          (All-active b.active b.queue _ v.sized p))
        (subst (λ x. IsFresh (active_jobs x ++ (queued b).queue) (queued b).next_job_id) e
          (IsFresh-queued b.active b.queue _ b.next_job_id refl v.fresh))
        v.pot_current v.registry
  start_if_idle-Inv (some a) b e h p v = record {
    drained = ground arith;
    bounded = omega (arith, length-append b.queue (new_job b.next_job_id ∷ []));
    sized = All-active b.active b.queue _ v.sized p;
    fresh = IsFresh-queued b.active b.queue _ b.next_job_id refl v.fresh;
    pot_current = v.pot_current;
    registry = v.registry;
  }

  pub queue_job-Inv :
      (b : BrokerCore)
      → IsPayload payload
      → Inv b
      → Inv (queue_job client id payload speed stream now clock b).0
  unfolding queue_job
  queue_job-Inv b p v = elim (Bool-cases (leb max_queued_jobs (length b.queue))) [
    | inl full ↦ rw full v
    | inr room ↦ rw room (start_if_idle-Inv b.active b refl (ground arith) p v)
  ]

-- Going on with the last queued job changes its payload alone.
length-extend_last : (p : TransmitPayload) (js : List Job) → length (extend_last p js) ≡ length js
unfolding extend_last
length-extend_last p [] = refl
length-extend_last p (j ∷ []) = refl
length-extend_last p (j ∷ k ∷ js) = ap suc (length-extend_last p (k ∷ js))

extend_last-Chain :
    (p : TransmitPayload) (lo : ℕ) (js : List Job) (hi : ℕ)
    → Chain lo js hi
    → Chain lo (extend_last p js) hi
unfolding extend_last
extend_last-Chain p lo [] hi c = c
extend_last-Chain p lo (j ∷ []) hi c = c
extend_last-Chain p lo (j ∷ k ∷ js) hi c =
    (c.0, c.1, extend_last-Chain p (suc j.id) (k ∷ js) hi c.2)

extend_last-IsSized :
    (p : TransmitPayload) (js : List Job) (j : Job)
    → get_last? js ≡ some j
    → overflows j p ≡ false
    → All IsSized js
    → All IsSized (extend_last p js)
unfolding extend_last get_last?
extend_last-IsSized p [] j e o h = tt
extend_last-IsSized p (k ∷ []) j e o h =
    ground (arith, length-append k.payload.wire_bytes p.wire_bytes)
extend_last-IsSized p (k ∷ l ∷ js) j e o h = (h.0, extend_last-IsSized p (l ∷ js) j e o h.1)

extend_last-nil : (p : TransmitPayload) → extend_last p [] ≡ []
unfolding extend_last
extend_last-nil p = refl

extend_last-Inv :
    (p : TransmitPayload) (b : BrokerCore) (j : Job)
    → get_last? b.queue ≡ some j
    → overflows j p ≡ false
    → Inv b
    → Inv (record b { queue = extend_last p b.queue })
extend_last-Inv p b j e o v = record {
  drained = λ i. ap (extend_last p) (v.drained i) ∙ extend_last-nil p;
  bounded = omega (arith, length-extend_last p b.queue);
  sized = sized_at b.active v.sized;
  fresh = λ lt. fresh_at b.active (v.fresh lt);
  pot_current = v.pot_current;
  registry = v.registry;
}
  where
    sized_at :
        (a : Option ActiveJob)
        → All IsSized (active_jobs a ++ b.queue)
        → All IsSized (active_jobs a ++ extend_last p b.queue)
    sized_at none h = extend_last-IsSized p b.queue j e o h
    sized_at (some a) h = (h.0, extend_last-IsSized p b.queue j e o h.1)

    fresh_at :
        (a : Option ActiveJob)
        → Chain 0 (active_jobs a ++ b.queue) b.next_job_id
        → Chain 0 (active_jobs a ++ extend_last p b.queue) b.next_job_id
    fresh_at none c = extend_last-Chain p 0 b.queue b.next_job_id c
    fresh_at (some a) c = (c.0, c.1, extend_last-Chain p (suc a.job.id) b.queue b.next_job_id c.2)

continue_last-Inv :
    (o : Option Job) (p : TransmitPayload) (id : ℕ) (b : BrokerCore) (otherwise : Reply)
    → get_last? b.queue ≡ o
    → Inv b
    → Inv otherwise.0
    → Inv (continue_last o p id b otherwise).0
unfolding continue_last
continue_last-Inv none p id b otherwise e v w = w
continue_last-Inv (some j) p id b otherwise e v w = elim (Bool-cases (continues j id)) [
  | inl goes ↦ elim (Bool-cases (overflows j p)) [
    | inl over ↦ rw (goes, over) v
    | inr fits ↦ rw (goes, fits) (extend_last-Inv p b j e fits v)
  ]
  | inr stays ↦ rw stays w
]

extend_active-Inv :
    (p : TransmitPayload) (b : BrokerCore) (a : ActiveJob)
    → b.active ≡ some a
    → overflows a.job p ≡ false
    → Inv b
    → Inv (record b { active = some (record a { job = extend_job a.job p }) })
extend_active-Inv p b a e o v =
    let sized = subst (λ x. All IsSized (active_jobs x ++ b.queue)) e v.sized in
    record {
      drained = ground arith;
      bounded = v.bounded;
      sized = (ground (arith, length-append a.job.payload.wire_bytes p.wire_bytes), sized.1);
      fresh = subst (λ x. IsFresh (active_jobs x ++ b.queue) b.next_job_id) e v.fresh;
      pot_current = v.pot_current;
      registry = v.registry;
    }

continue_active-Inv :
    (a : Option ActiveJob) (p : TransmitPayload) (id : ℕ) (b : BrokerCore) (otherwise : Reply)
    → b.active ≡ a
    → Inv b
    → Inv otherwise.0
    → Inv (continue_active a p id b otherwise).0
unfolding continue_active
continue_active-Inv none p id b otherwise e v w = w
continue_active-Inv (some a) p id b otherwise e v w = elim (Bool-cases (continues a.job id)) [
  | inl goes ↦ elim (Bool-cases (overflows a.job p)) [
    | inl over ↦ rw (goes, over) v
    | inr fits ↦ rw (goes, fits) (extend_active-Inv p b a e fits v)
  ]
  | inr stays ↦ rw stays w
]

accept-Inv :
    (client : Option ClientState) (id : ℕ) (payload : TransmitPayload) (speed : Option SpeedMode)
    (stream : Bool) (now clock : ℕ) (b : BrokerCore)
    → IsPayload payload
    → Inv b
    → Inv (accept client id payload speed stream now clock b).0
unfolding accept
accept-Inv none id payload speed stream now clock b p v = v
accept-Inv (some client) id payload speed false now clock b p v =
    queue_job-Inv client id payload speed false now clock b p v
accept-Inv (some client) id payload speed true now clock b p v =
    continue_active-Inv b.active payload id b _ refl v (
      continue_last-Inv (get_last? b.queue) payload id b _ refl v
        (queue_job-Inv client id payload speed true now clock b p v))

-- What `enqueue` tests first.
abbrev pub is_refused : TransmitPayload → Bool → Bool
is_refused payload connected =
    is_empty payload.wire_bytes || ltb max_job_bytes (length payload.wire_bytes) || not connected

IsPayload-of :
    (p : TransmitPayload) (connected : Bool) → is_refused p connected ≡ false → IsPayload p
IsPayload-of p connected h = wire_case p.wire_bytes (ground arith)
  where
    wire_case :
        (w : Bytes)
        → (is_empty w || ltb max_job_bytes (length w)) ≡ false
        → (0 < length w) × (length w ≤ max_job_bytes)
    wire_case [] k = cc
    wire_case (c ∷ cs) k = ground arith

pub enqueue-Inv :
    (id : ℕ) (payload : TransmitPayload) (speed : Option SpeedMode) (stream : Bool) (now clock : ℕ)
    (b : BrokerCore)
    → Inv b
    → Inv (enqueue id payload speed stream now clock b).0
unfolding enqueue
enqueue-Inv id payload speed stream now clock b v =
    elim (Bool-cases (is_refused payload b.connected)) [
      | inl refused ↦ rw refused v
      | inr taken ↦ rw taken (
          accept-Inv (lookup id b.clients) id payload speed stream now clock b
            (IsPayload-of payload b.connected taken) v)
    ]
