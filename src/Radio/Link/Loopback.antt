-- ===== src/Radio/Link/Loopback.antt =====
-- The in-memory backend (backend/loopback.rs). It answers at once, so that each method is a function
-- of the backend and the shared state to both and the events.
use cathub.Prelude.{ℕ, suc, true, false, List, [], ◌∷◌, ◌++◌, some, Bytes}
use cathub.Prelude.Text.{text}
use cathub.Radio.Model.{StateMutation, into_change, a, freq, poll_diff, optimistic_write}
use cathub.Radio.State.{StateHandle, RadioEvent, record_change}
use cathub.Radio.Link.Framer.{semicolon_terminated}
use cathub.Radio.Link.Capabilities.{BackendCapabilities, vfo_pair, kenwood, in_memory}

pub record LoopbackBackend : Type 0 where
  pub mutations : List StateMutation
  pub passthroughs : List Bytes
  pub polls : ℕ
  pub truth_freq_a : ℕ

abbrev pub new_loopback : LoopbackBackend
new_loopback = record { mutations = []; passthroughs = []; polls = 0; truth_freq_a = 14074000 }

abbrev pub Shared : Type 0
Shared = LoopbackBackend × StateHandle × List RadioEvent

unfoldable pub poll : LoopbackBackend → StateHandle → Shared
unfolding record_change
poll r h =
    let (next, sent) = record_change (freq a r.truth_freq_a) poll_diff h in
    (record r { polls = suc r.polls }, next, sent)

unfoldable pub apply : StateMutation → LoopbackBackend → StateHandle → Shared
unfolding record_change into_change
apply m r h =
    let (next, sent) = record_change (into_change m) optimistic_write h in
    (record r { mutations = r.mutations ++ m ∷ [] }, next, sent)

unfoldable pub passthrough : Bytes → LoopbackBackend → LoopbackBackend × Bytes
passthrough raw r = (record r { passthroughs = r.passthroughs ++ raw ∷ [] }, raw)

abbrev pub capabilities : BackendCapabilities
capabilities = record {
  model = text "loopback";
  vfo_count = 2;
  has_rit = true;
  has_xit = true;
  has_smeter = true;
  split = vfo_pair;
  native_push = false;
  native_command_family = some kenwood;
  framing = semicolon_terminated;
  freq_min_hz = 30000;
  freq_max_hz = 60000000;
  trust = in_memory;
}
