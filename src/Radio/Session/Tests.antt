-- ===== src/Radio/Session/Tests.antt =====
-- Instances of the theorems on client sessions, and a run of two of them.
use cathub.Prelude.{◌≡◌, refl, true, false, some, none, []}
use cathub.Radio.Model.{set_ptt, generic}
use cathub.Radio.Permissions.{EndpointPermissions, ptt_write, allows_mutation}
use cathub.Radio.State.{new_handle, is_redundant, invalidated, snapshot_is_redundant}
use cathub.Radio.Lease.{new, try_key, unkey}
use cathub.Radio.Link.Transport.{failure, timeout, answer}
use cathub.Radio.Session.{Session, new_session, keying, begin_modeled, finish_modeled}
use cathub.Radio.Session.Arbiter.{
  Hub, request, complete, requests, starts, goes, Reachable, Reachable-keying,
}
use cathub.Radio.Session.Outcomes.{Begins, begin_modeled-Begins}
use cathub.Kenwood.Ts590.{capabilities}

abbrev operator : EndpointPermissions
operator = record {
  read = true;
  write = true;
  frequency_write = true;
  ptt = true;
  config_write = false;
}

abbrev first_client : Session
first_client = new_session 1 operator capabilities

abbrev fresh : Hub
fresh = record { lease = new 30; waiting = λ s. none }

-- The first session has asked for the transmitter.
abbrev asked : Hub
asked = request first_client (set_ptt true generic) ptt_write 5 new_handle fresh

asked-Reachable : Reachable asked
asked-Reachable =
    goes fresh asked (starts 30)
      (requests fresh first_client (set_ptt true generic) ptt_write 5 new_handle refl)

asked-waiting : asked.waiting 1 ≡ some keying
unfolding begin_modeled allows_mutation is_redundant invalidated snapshot_is_redundant new_handle
    try_key new
asked-waiting = refl

Reachable-keying_example :
    (asked.lease.owner ≡ some first_client.session_id)
    × (first_client.session_id ≡ first_client.session_id)
Reachable-keying_example = Reachable-keying asked 1 1 asked-Reachable asked-waiting asked-waiting

begin_modeled-Begins_example :
    Begins first_client
      (set_ptt true generic)
      ptt_write
      new_handle
      (new 30)
      (begin_modeled first_client (set_ptt true generic) ptt_write 5 new_handle (new 30))
begin_modeled-Begins_example =
    begin_modeled-Begins first_client (set_ptt true generic) ptt_write 5 new_handle (new 30)

-- The transmitter is keyed; the same session asks again, and this time the write fails.
abbrev again : Hub
again = complete 1 keying (failure timeout) (
    request first_client (set_ptt true generic) ptt_write 9 new_handle
      (complete 1 keying (answer []) asked))

again-owner : again.lease.owner ≡ none
unfolding begin_modeled finish_modeled allows_mutation is_redundant invalidated
    snapshot_is_redundant new_handle try_key unkey new
again-owner = refl
