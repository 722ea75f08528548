-- ===== src/Keyer/Broker/Schedule.antt =====
-- Handing the keyer on (winkeyer/broker.rs): the next queued job starts, or the foreground client's
-- profile and speed come back. `clock` is what `Instant::now()` reads; the `debug_assert!` on it is
-- left out, since release builds do not have it.
use cathub.Prelude.{
  ℕ, false, not, List, [], ◌∷◌, ◌++◌, Option, none, some, ◌==◌, if◌then◌else◌, is_id, Bytes,
}
use cathub.Prelude.Map.{lookup, values}
use cathub.Keyer.Broker.State.{
  BrokerCore, Outcome, Actions, Job, ClientState, SpeedMode, pot, speed_command, write, write_all,
  refresh_pot_wpm, profile_pot_minimum, foreground, get_or, completed,
}

unfoldable pub restore_to : Option (ℕ × ClientState) → BrokerCore → Outcome
restore_to none b =
    (refresh_pot_wpm (record b { physical_pot_min_wpm = 5 }), write (speed_command pot) ∷ [])
restore_to (some (id, client)) b =
    let changed = not (is_id b.applied_profile_client_id id) in
    (
      refresh_pot_wpm (record b {
        applied_profile_client_id = if changed then some id else b.applied_profile_client_id;
        physical_pot_min_wpm = get_or (profile_pot_minimum client.profile) 5;
      }),
      (if changed then write_all (values client.profile) else [])
          ++ write (speed_command client.desired_speed) ∷ [],
    )

unfoldable pub restore_foreground_speed : BrokerCore → Outcome
unfolding restore_to
restore_foreground_speed b = restore_to (foreground b.clients) b

abbrev pub profile_of : Option ClientState → List Bytes
profile_of none = []
profile_of (some client) = values client.profile

abbrev pub minimum_of : Option ClientState → Option ℕ
minimum_of none = none
minimum_of (some client) = profile_pot_minimum client.profile

abbrev pub with_minimum : Option ℕ → BrokerCore → BrokerCore
with_minimum none b = b
with_minimum (some minimum) b = refresh_pot_wpm (record b { physical_pot_min_wpm = minimum })

-- `payload.first() != Some(&0x1c)`: an explicit buffered speed needs no speed command.
abbrev pub speed_write : Bytes → SpeedMode → Actions
speed_write [] speed = write (speed_command speed) ∷ []
speed_write (first ∷ rest) speed = if first == 0x1c then [] else write (speed_command speed) ∷ []

-- Start a job that has left the queue.
unfoldable pub start_job : Job → BrokerCore → ℕ → Outcome
start_job job b clock =
    let changed = not (is_id b.applied_profile_client_id job.client_id) in
    let owner = lookup job.client_id b.clients in
    let ready =
      if changed
      then record (with_minimum (minimum_of owner) b) {
        applied_profile_client_id = some job.client_id;
      }
      else b in
    (
      record ready {
        active =
            some
              (record { job = job; saw_busy = false; observed_status = false; started_at = clock });
      },
      (if changed then write_all (profile_of owner) else [])
          ++ speed_write job.payload.wire_bytes job.speed
          ++ write job.payload.wire_bytes ∷ write (0x15 ∷ []) ∷ [],
    )

unfoldable pub start_from : List Job → BrokerCore → ℕ → Outcome
start_from [] b clock = restore_foreground_speed b
start_from (job ∷ rest) b clock = start_job job (record b { queue = rest }) clock

unfoldable pub start_next_or_restore : BrokerCore → ℕ → Outcome
unfolding start_from
start_next_or_restore b clock = start_from b.queue b clock

unfoldable pub complete_active : BrokerCore → ℕ → Outcome
complete_active b clock = elim b.active [
  | none ↦ (b, [])
  | some a ↦
      let (after, actions) = start_next_or_restore (record b { active = none }) clock in
      (after, completed a.job.id a.job.client_id ∷ actions)
]
