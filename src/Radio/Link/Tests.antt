-- ===== src/Radio/Link/Tests.antt =====
-- Instances of the theorems on the radio link.
use cathub.Prelude.{
  ℕ, ◌≤◌, ◌≡◌, ◌⊎◌, refl, true, List, [], ◌∷◌, ◌++◌, some, none, length, All, arith,
}
use cathub.Radio.Link.Framer.{semicolon_terminated, max_radio_frame_len, Framer, push}
use cathub.Radio.Link.Framing.{frame, frames_of, stream_of, push-length, push-stream_of}
use cathub.Radio.Link.Scheduler.{
  Priority, ptt, read, write, poll, rank, poll_cycle, passthrough, Operation, Queues, enqueue, scan,
  pop_at, select_next, round, serve,
}
use cathub.Radio.Link.Selection.{IsDrained, Least, Takes, select_next-Least}
use cathub.Radio.Link.Fifo.{ops_of, queue_of, arrivals, serve-refines}
use cathub.Radio.Link.Drain.{total, idle, serve-drains}
use cathub.Radio.Link.Transport.{
  verb, timeout, failure, verbs, RawCommand, Pending, Event, accepted, wrote, answered, routed,
  running, on_command, on_frame, on_elapsed, Run, takes, reads, waits, stays, goes, frame_matches,
}
use cathub.Radio.Link.Replies.{taken, given, in_flight, Run-replies}

-- A framer that holds the start of a frame.
abbrev partial : Framer
partial = record { framing = semicolon_terminated; buf = b'M' ∷ b'D' ∷ [] }

push-length_example :
    let r = push partial (b'3' ∷ b';' ∷ b'F' ∷ []) in
    (length r.0.buf ≤ max_radio_frame_len) × All (λ g. length g ≤ max_radio_frame_len) r.1
push-length_example = push-length partial (b'3' ∷ b';' ∷ b'F' ∷ []) (omega arith)

push-stream_of_example :
    let r =
      push partial
        (frame b';' (b'?' ∷ []) ++ stream_of b';' ((b'T' ∷ b'X' ∷ []) ∷ (b'R' ∷ b'X' ∷ []) ∷ [])) in
    (r.0.buf ≡ [])
    × (r.1
        ≡ (push partial (frame b';' (b'?' ∷ []))).1
          ++ frames_of b';' ((b'T' ∷ b'X' ∷ []) ∷ (b'R' ∷ b'X' ∷ []) ∷ []))
push-stream_of_example =
    push-stream_of partial (b'?' ∷ []) ((b'T' ∷ b'X' ∷ []) ∷ (b'R' ∷ b'X' ∷ []) ∷ [])
      ((refl, omega arith), ((refl, omega arith), tt))

abbrev operation : ℕ → Priority → ℕ → Operation
operation session_id priority reply = record {
  session_id = session_id;
  priority = priority;
  kind = passthrough (b'F' ∷ b'A' ∷ b';' ∷ []);
  reply = reply;
}

abbrev polls : Operation
polls = record { session_id = 0; priority = poll; kind = poll_cycle; reply = 1 }

abbrev two_queues : Queues
two_queues = (0, polls ∷ []) ∷ (7, operation 7 write 2 ∷ operation 7 ptt 3 ∷ []) ∷ []

select_next-Least_example :
    (IsDrained two_queues × (select_next two_queues ≡ (none, two_queues)))
    ⊎ ((op : Operation) × (left : Queues) × (select_next two_queues ≡ (some op, left))
        × Takes two_queues op left
        × Least (rank op.priority) two_queues)
select_next-Least_example = select_next-Least two_queues

-- The poll cycle and two commands of session 7 arrive first, then a read of session 8.
abbrev day : List (List Operation)
day = (polls ∷ operation 7 write 2 ∷ operation 7 ptt 3 ∷ []) ∷ (operation 8 read 4 ∷ []) ∷ []

serve-refines_example :
    ops_of 7 (arrivals day) ≡ ops_of 7 (serve day []).1 ++ queue_of 7 (serve day []).0
serve-refines_example = serve-refines 7 day

day-total : total (serve day []).0 ≤ 2
unfolding serve round select_next scan pop_at enqueue
day-total = omega arith

serve-drains_example :
    let before = serve day [] in
    let after = serve (idle 2) before.0 in
    IsDrained after.0 × (ops_of 7 (before.1 ++ after.1) ≡ ops_of 7 (arrivals day))
serve-drains_example = serve-drains 7 2 day day-total

abbrev ask : RawCommand
ask = record {
  bytes = b'F' ∷ b'A' ∷ b';' ∷ [];
  expect = verbs ((b'F' ∷ b'A' ∷ []) ∷ []);
  reply = 5;
}

-- A query is sent, and a pushed frame comes before the clock runs out.
abbrev slow : List Event
slow =
    accepted 5
    ∷ wrote (b'F' ∷ b'A' ∷ b';' ∷ [])
    ∷ routed (b'M' ∷ b'D' ∷ b'3' ∷ b';' ∷ [])
    ∷ answered 5 (failure timeout)
    ∷ []

slow-Run : Run (running none) (running none, slow)
unfolding on_command on_frame on_elapsed frame_matches
slow-Run =
    let p : Pending = record {
      matcher = verb ((b'F' ∷ b'A' ∷ []) ∷ []);
      reply = 5;
      deadline = 1000;
    } in
    goes (running none) (running (some p)) (running none)
      (accepted 5 ∷ wrote (b'F' ∷ b'A' ∷ b';' ∷ []) ∷ [])
      (routed (b'M' ∷ b'D' ∷ b'3' ∷ b';' ∷ []) ∷ answered 5 (failure timeout) ∷ [])
      (takes ask true 0)
      (goes (running (some p)) (running (some p)) (running none)
        (routed (b'M' ∷ b'D' ∷ b'3' ∷ b';' ∷ []) ∷ []) (answered 5 (failure timeout) ∷ [])
        (reads (some p) (b'M' ∷ b'D' ∷ b'3' ∷ b';' ∷ []))
        (goes (running (some p)) (running none) (running none) (answered 5 (failure timeout) ∷ [])
          [] (waits p) (stays (running none))))

Run-replies_example :
    in_flight (running none) ++ taken slow ≡ given slow ++ in_flight (running none)
Run-replies_example = Run-replies (running none) (running none) slow slow-Run
