-- ===== src/Keyer/Endpoint/Effects.antt =====
-- Which effects the permissions of a virtual keyer let a session have, and those of its commands.
use cathub.Prelude.{
  ℕ, ◌≡◌, refl, Bool, true, false, not, ◌&&◌, ◌||◌, List, [], ◌∷◌, ◌++◌, Option, none, some, ◌==◌,
  if◌then◌else◌, get_elem?, Bytes, arith, and_both, and_true, inl, inr, Option-cases,
}
use cathub.Keyer.Protocol.{
  CommandPolicy, virtualized, transient, active_owner, maintenance, command_policy, within,
}
use cathub.Keyer.Broker.Snapshot.{BrokerSnapshot}
use cathub.Keyer.Broker.State.{SpeedMode}
use cathub.Keyer.Endpoint
use cathub.Keyer.Endpoint.Spelled.{spelled, printable}

abbrev pub is_key_command : Bytes → Bool
is_key_command [] = false
is_key_command (opcode ∷ rest) = opcode == 0x0b

abbrev pub permits : Endpoint.EndpointPermissions → Endpoint.Effect → Bool
permits p (Endpoint.streams control_prefix intended_text) =
    p.send && spelled p 0 control_prefix && printable intended_text
permits p Endpoint.cancels = p.send
permits p Endpoint.releases_maintenance = true
permits p Endpoint.unregisters = true
permits p (Endpoint.sets_speed speed) = p.control
permits p (Endpoint.configures cmd) = p.control
permits p (Endpoint.owner_command cmd) = p.control && (not (is_key_command cmd) || p.ptt)
permits p (Endpoint.maintains cmd) = p.config_write
permits p (Endpoint.sends byte) = p.status

abbrev pub permits_all : Endpoint.EndpointPermissions → List Endpoint.Effect → Bool
permits_all p [] = true
permits_all p (x ∷ xs) = permits p x && permits_all p xs

pub permits_all-append :
    (p : Endpoint.EndpointPermissions) (xs ys : List Endpoint.Effect)
    → permits_all p xs ≡ true
    → permits_all p ys ≡ true
    → permits_all p (xs ++ ys) ≡ true
permits_all-append p [] ys h k = k
permits_all-append p (x ∷ xs) ys h k = ground (arith, h, permits_all-append p xs ys, k)

maintain-permits_all :
    (p : Endpoint.EndpointPermissions) (accepts : Endpoint.Effect → Bool) (cmd : Bytes)
    (e : Endpoint.Endpoint)
    → permits_all p (Endpoint.maintain p accepts cmd e).effects ≡ true
maintain-permits_all p accepts cmd e = ground arith

answer-permits_all :
    (p : Endpoint.EndpointPermissions) (accepts : Endpoint.Effect → Bool) (byte : ℕ)
    (e : Endpoint.Endpoint)
    → p.status ≡ true
    → permits_all p (Endpoint.answer accepts byte e).effects ≡ true
answer-permits_all p accepts byte e h = ground (arith, h)

pub if-permits_all :
    (p : Endpoint.EndpointPermissions) (c : Bool) (x y : Endpoint.Turn)
    → (c ≡ true → permits_all p x.effects ≡ true)
    → permits_all p y.effects ≡ true
    → permits_all p (if c then x else y).effects ≡ true
if-permits_all p true x y f g = f refl
if-permits_all p false x y f g = g

third-permits_all :
    (p : Endpoint.EndpointPermissions) (accepts : Endpoint.Effect → Bool) (byte : Option ℕ)
    (e : Endpoint.Endpoint)
    → p.status ≡ true
    → permits_all p (Endpoint.answer_third accepts byte e).effects ≡ true
third-permits_all p accepts none e h = refl
third-permits_all p accepts (some byte) e h = answer-permits_all p accepts byte e h

admin_subcommand-permits_all :
    (p : Endpoint.EndpointPermissions) (accepts : Endpoint.Effect → Bool) (s : BrokerSnapshot)
    (cmd : Bytes) (sub : ℕ) (e : Endpoint.Endpoint)
    → permits_all p (Endpoint.admin_subcommand p accepts s cmd sub e).effects ≡ true
unfolding Endpoint.admin_subcommand
admin_subcommand-permits_all p accepts s cmd sub e =
    if-permits_all p (sub == 0x02 && p.status) _ _
      (λ h. answer-permits_all p accepts _ _ (and_both _ _ h).1)
      (if-permits_all p (sub == 0x03) _ _ (λ h. refl)
        (if-permits_all p (sub == 0x04 && p.status) _ _
          (λ h. third-permits_all p accepts (get_elem? cmd 2) e (and_both _ _ h).1)
          (if-permits_all p
            ((within 0x05 0x07 sub || sub == 0x15 || within 0x17 0x18 sub) && p.status) _ _
            (λ h. answer-permits_all p accepts 0 e (and_both _ _ h).1)
            (if-permits_all p (sub == 0x09 && p.status) _ _
              (λ h. answer-permits_all p accepts _ e (and_both _ _ h).1)
              (if-permits_all p (sub == 0x0a && p.control) _ _ (λ h. refl)
                (if-permits_all p (sub == 0x0b && p.control) _ _ (λ h. refl)
                  (if-permits_all p (sub == 0x14 && p.control) _ _ (λ h. refl)
                    (if-permits_all p
                      ((sub == 0x0f || sub == 0x13 || sub == 0x16 || sub == 0x19) && p.control) _ _
                      (λ h. and_true p.control true (and_both _ _ h).1 refl)
                      (maintain-permits_all p accepts cmd e)))))))))

handle_admin-permits_all :
    (p : Endpoint.EndpointPermissions) (accepts : Endpoint.Effect → Bool) (s : BrokerSnapshot)
    (cmd : Bytes) (e : Endpoint.Endpoint)
    → permits_all p (Endpoint.handle_admin p accepts s cmd e).effects ≡ true
unfolding Endpoint.handle_admin
handle_admin-permits_all p accepts s cmd e = elim (Option-cases (get_elem? cmd 1)) [
  | inl n ↦ rw n refl
  | inr (sub, n) ↦ rw n (admin_subcommand-permits_all p accepts s cmd sub e)
]

speed-permits_all :
    (p : Endpoint.EndpointPermissions) (speed : Option SpeedMode)
    → p.control ≡ true
    → permits_all p (Endpoint.speed_effects speed) ≡ true
speed-permits_all p none h = refl
speed-permits_all p (some speed) h = and_true p.control true h refl

by_policy-permits_all :
    (policy : CommandPolicy) (p : Endpoint.EndpointPermissions) (accepts : Endpoint.Effect → Bool)
    (opcode : ℕ) (rest : Bytes) (e : Endpoint.Endpoint)
    → permits_all p (Endpoint.by_policy policy p accepts (opcode ∷ rest) opcode e).effects ≡ true
by_policy-permits_all virtualized p accepts opcode rest e = refl
by_policy-permits_all transient p accepts opcode rest e = ground arith
by_policy-permits_all active_owner p accepts opcode rest e = ground arith
by_policy-permits_all maintenance p accepts opcode rest e =
    maintain-permits_all p accepts (opcode ∷ rest) e

pub handle_command-permits_all :
    (p : Endpoint.EndpointPermissions) (accepts : Endpoint.Effect → Bool) (s : BrokerSnapshot)
    (cmd : Bytes) (e : Endpoint.Endpoint)
    → permits_all p (Endpoint.handle_command p accepts s cmd e).effects ≡ true
unfolding Endpoint.handle_command
handle_command-permits_all p accepts s [] e = refl
handle_command-permits_all p accepts s (opcode ∷ rest) e =
    if-permits_all p (opcode == 0x00) _ _
      (λ h. handle_admin-permits_all p accepts s (opcode ∷ rest) e)
      (if-permits_all p (not e.opened) _ _ (λ h. refl)
        (if-permits_all p (opcode == 0x02 && p.control) _ _
          (λ h. speed-permits_all p (Endpoint.speed_of (get_elem? rest 0)) (and_both _ _ h).1)
          (if-permits_all p (opcode == 0x07 && p.status) _ _
            (λ h. answer-permits_all p accepts _ e (and_both _ _ h).1)
            (if-permits_all p (opcode == 0x15 && p.status) _ _
              (λ h. answer-permits_all p accepts _ e (and_both _ _ h).1)
              (by_policy-permits_all (command_policy (opcode ∷ rest)) p accepts opcode rest e)))))
