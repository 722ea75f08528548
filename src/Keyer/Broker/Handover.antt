-- ===== src/Keyer/Broker/Handover.antt =====
-- Who has the physical keyer in winkeyer/broker.rs: what is written when it falls idle, who may
-- write to it, and when the watchdog takes it away.
use Prim.Native.String.{String}
use cathub.Prelude.{
  ℕ, ◌≡◌, refl, inl, inr, Bool, not, ◌&&◌, List, [], ◌∷◌, ◌++◌, Option, none, some, arith,
  if◌then◌else◌, Bool-cases, is_id,
}
use cathub.Prelude.Map.{values}
use cathub.Keyer.Broker.State.{
  BrokerCore, Outcome, Actions, PhysicalAction, write, completed, reason, ActiveJob, ClientState,
  Job, SpeedMode, pot, speed_command, foreground, write_all,
}
use cathub.Keyer.Broker.Schedule.{
  restore_to, restore_foreground_speed, start_job, start_from, start_next_or_restore,
  complete_active,
}
use cathub.Keyer.Broker.Cancel.{
  unregister_client, cancel_client, cancel_job, emergency_stop, cancel_active, cancel_all,
  is_active_of, is_active_job, own,
}
use cathub.Keyer.Broker.Invariant.{restore-Kept}

abbrev pub last_action : Actions → Option PhysicalAction
last_action [] = none
last_action (a ∷ []) = some a
last_action (a ∷ b ∷ r) = last_action (b ∷ r)

-- The speed that belongs on an idle keyer: the primary client's, or the pot's.
abbrev speed_of : Option (ℕ × ClientState) → SpeedMode
speed_of none = pot
speed_of (some (id, client)) = client.desired_speed

abbrev pub foreground_speed : BrokerCore → SpeedMode
foreground_speed b = speed_of (foreground b.clients)

-- The actions end by writing that speed.
abbrev pub Restores : Outcome → Type 0
Restores (after, actions) =
    last_action actions ≡ some (write (speed_command (foreground_speed after)))

last_action-concat : (xs : Actions) (y : PhysicalAction) → last_action (xs ++ y ∷ []) ≡ some y
last_action-concat [] y = refl
last_action-concat (x ∷ []) y = refl
last_action-concat (x ∷ z ∷ r) y = last_action-concat (z ∷ r) y

last_action-append :
    (xs ys : Actions) {a : PhysicalAction}
    → last_action ys ≡ some a
    → last_action (xs ++ ys) ≡ some a
last_action-append [] ys e = e
last_action-append (x ∷ []) [] e = cc
last_action-append (x ∷ []) (y ∷ ys) e = e
last_action-append (x ∷ z ∷ r) ys e = last_action-append (z ∷ r) ys e

restore_to-last :
    (f : Option (ℕ × ClientState)) (b : BrokerCore)
    → last_action (restore_to f b).1 ≡ some (write (speed_command (speed_of f)))
unfolding restore_to
restore_to-last none b = refl
restore_to-last (some (id, client)) b =
    last_action-concat
      (if not (is_id b.applied_profile_client_id id) then write_all (values client.profile) else [])
      (write (speed_command client.desired_speed))

pub restore-Restores : (b : BrokerCore) → Restores (restore_foreground_speed b)
restore-Restores b =
    rw ((restore-Kept b).0)
      (unfold restore_foreground_speed in restore_to-last (foreground b.clients) b)

-- A hand-over that leaves the keyer idle restores it.
start_from-Restores :
    (js : List Job) (b : BrokerCore) (clock : ℕ)
    → (start_from js b clock).0.active ≡ none
    → Restores (start_from js b clock)
unfolding start_from start_job
start_from-Restores [] b clock e = restore-Restores b
start_from-Restores (j ∷ rest) b clock e = cc

start-Restores :
    (b : BrokerCore) (clock : ℕ)
    → (start_next_or_restore b clock).0.active ≡ none
    → Restores (start_next_or_restore b clock)
unfolding start_next_or_restore
start-Restores b clock e = start_from-Restores b.queue b clock e

prefixed : (xs : Actions) (r : Outcome) → Restores r → Restores (r.0, xs ++ r.1)
prefixed xs r e = last_action-append xs r.1 e

-- If an outcome leaves the keyer idle, its actions restore the foreground.
abbrev pub IdleRestores : Outcome → Type 0
IdleRestores r = r.0.active ≡ none → Restores r

handed :
    (xs : Actions) (b : BrokerCore) (clock : ℕ)
    → let r = start_next_or_restore b clock in IdleRestores (r.0, xs ++ r.1)
handed xs b clock idle = prefixed xs (start_next_or_restore b clock) (start-Restores b clock idle)

pub complete-IdleRestores :
    (b : BrokerCore) (a : ActiveJob) (clock : ℕ)
    → b.active ≡ some a
    → IdleRestores (complete_active b clock)
unfolding complete_active
complete-IdleRestores b a clock e =
    simp (e, complete_active)
      (handed (completed a.job.id a.job.client_id ∷ []) (record b { active = none }) clock)

pub unregister-IdleRestores :
    (id clock : ℕ) (b : BrokerCore) (a : ActiveJob)
    → b.active ≡ some a
    → IdleRestores (unregister_client id clock b)
unfolding unregister_client
unregister-IdleRestores id clock b a e =
    let dropped = cancel_all (own id b.queue) in
    elim (Bool-cases (is_active_of b.active id)) [
      | inl mine ↦ rw mine (handed (dropped ++ write (0x0a ∷ []) ∷ cancel_active b.active) _ clock)
      | inr other ↦ rw other (λ idle. cc)
    ]

pub cancel_client-IdleRestores :
    (id : ℕ) (include_active : Bool) (clock : ℕ) (b : BrokerCore) (a : ActiveJob)
    → b.active ≡ some a
    → IdleRestores (cancel_client id include_active clock b)
unfolding cancel_client
cancel_client-IdleRestores id include_active clock b a e =
    elim (Bool-cases (include_active && is_active_of b.active id)) [
      | inl mine ↦ rw mine (
          handed (write (0x0a ∷ []) ∷ cancel_all (own id b.queue) ++ cancel_active b.active) _
            clock)
      | inr other ↦ rw other (ground arith)
    ]

pub cancel_job-IdleRestores :
    (id job_id clock : ℕ) (b : BrokerCore) (a : ActiveJob)
    → b.active ≡ some a
    → let r = cancel_job id job_id clock b in IdleRestores (r.0, r.2)
unfolding cancel_job
cancel_job-IdleRestores id job_id clock b a e =
    elim (Bool-cases (is_active_job b.active id job_id)) [
      | inl mine ↦ rw mine (handed (write (0x0a ∷ []) ∷ cancel_active b.active) _ clock)
      | inr other ↦ rw other (λ idle. cc)
    ]

pub stop-Restores : (why : String) (b : BrokerCore) → Restores (emergency_stop why b)
unfolding emergency_stop
stop-Restores why b =
    let c = record b { active = none; queue = []; last_safety_action = some (reason why) } in
    prefixed (write (0x0a ∷ 0x0b ∷ 0x00 ∷ []) ∷ cancel_active b.active ++ cancel_all b.queue)
      (restore_foreground_speed c) (restore-Restores c)
