-- ===== src/Keyer/Endpoint/Parsing.antt =====
-- What the commands of a virtual keyer make of its parser.
use cathub.Prelude.{
  ℕ, ◌≡◌, refl, Bool, true, false, not, ◌&&◌, ◌||◌, [], ◌∷◌, Option, none, some, ◌==◌,
  if◌then◌else◌, get_elem?, Bytes,
}
use cathub.Keyer.Protocol.{
  ClientParser, CommandPolicy, virtualized, transient, active_owner, maintenance, command_policy,
  within,
}
use cathub.Keyer.Broker.Snapshot.{BrokerSnapshot}
use cathub.Keyer.Endpoint

-- The parser that a turn leaves.
abbrev pub Keeps : ClientParser → Endpoint.Turn → Type 0
Keeps q t = t.endpoint.parser ≡ q

if-Keeps :
    (q : ClientParser) (c : Bool) (x y : Endpoint.Turn)
    → Keeps q x
    → Keeps q y
    → Keeps q (if c then x else y)
if-Keeps q true x y h k = h
if-Keeps q false x y h k = k

module _ (p : Endpoint.EndpointPermissions) (accepts : Endpoint.Effect → Bool)
    (s : BrokerSnapshot) where
  maintain-Keeps :
      (cmd : Bytes) (e : Endpoint.Endpoint) → Keeps e.parser (Endpoint.maintain p accepts cmd e)
  maintain-Keeps cmd e =
      if-Keeps e.parser p.config_write _ _
        (if-Keeps e.parser (accepts (Endpoint.maintains cmd)) _ _ refl refl) refl

  answer-Keeps :
      (byte : ℕ) (e : Endpoint.Endpoint) → Keeps e.parser (Endpoint.answer accepts byte e)
  answer-Keeps byte e = if-Keeps e.parser (accepts (Endpoint.sends byte)) _ _ refl refl

  third-Keeps :
      (byte : Option ℕ) (e : Endpoint.Endpoint)
      → Keeps e.parser (Endpoint.answer_third accepts byte e)
  third-Keeps none e = refl
  third-Keeps (some byte) e = answer-Keeps byte e

  admin_subcommand-Keeps :
      (cmd : Bytes) (sub : ℕ) (e : Endpoint.Endpoint)
      → Keeps e.parser (Endpoint.admin_subcommand p accepts s cmd sub e)
  unfolding Endpoint.admin_subcommand
  admin_subcommand-Keeps cmd sub e =
      let either = if-Keeps e.parser in
      either (sub == 0x02 && p.status) _ _
        (either (accepts (Endpoint.sends (Endpoint.or_byte s.firmware_revision 0xff))) _ _ refl
          refl)
        (either (sub == 0x03) _ _ refl (
          either (sub == 0x04 && p.status) _ _ (third-Keeps (get_elem? cmd 2) e) (
            either ((within 0x05 0x07 sub || sub == 0x15 || within 0x17 0x18 sub) && p.status) _ _
              (answer-Keeps 0 e)
              (either (sub == 0x09 && p.status) _ _
                (answer-Keeps (Endpoint.or_byte s.firmware_revision 0xff) e)
                (either (sub == 0x0a && p.control) _ _ refl (
                  either (sub == 0x0b && p.control) _ _ refl (
                    either (sub == 0x14 && p.control) _ _ refl (
                      either
                        ((sub == 0x0f || sub == 0x13 || sub == 0x16 || sub == 0x19) && p.control) _
                        _ refl (maintain-Keeps cmd e)))))))))

  handle_admin-Keeps :
      (cmd : Bytes) (e : Endpoint.Endpoint)
      → Keeps e.parser (Endpoint.handle_admin p accepts s cmd e)
  unfolding Endpoint.handle_admin
  handle_admin-Keeps cmd e = of_subcommand-Keeps (get_elem? cmd 1)
    where
      of_subcommand-Keeps :
          (sub : Option ℕ) → Keeps e.parser (Endpoint.of_subcommand p accepts s cmd sub e)
      of_subcommand-Keeps none = refl
      of_subcommand-Keeps (some sub) = admin_subcommand-Keeps cmd sub e

  by_policy-Keeps :
      (policy : CommandPolicy) (cmd : Bytes) (opcode : ℕ) (e : Endpoint.Endpoint)
      → Keeps e.parser (Endpoint.by_policy policy p accepts cmd opcode e)
  by_policy-Keeps virtualized cmd opcode e = refl
  by_policy-Keeps transient cmd opcode e = refl
  by_policy-Keeps active_owner cmd opcode e = refl
  by_policy-Keeps maintenance cmd opcode e = maintain-Keeps cmd e

  pub handle_command-Keeps :
      (cmd : Bytes) (e : Endpoint.Endpoint)
      → Keeps e.parser (Endpoint.handle_command p accepts s cmd e)
  unfolding Endpoint.handle_command
  handle_command-Keeps [] e = refl
  handle_command-Keeps (opcode ∷ rest) e =
      let either = if-Keeps e.parser in
      either (opcode == 0x00) _ _ (handle_admin-Keeps (opcode ∷ rest) e) (
        either (not e.opened) _ _ refl (
          either (opcode == 0x02 && p.control) _ _ refl (
            either (opcode == 0x07 && p.status) _ _ (answer-Keeps (Endpoint.pot_byte s.pot_value) e)
              (either (opcode == 0x15 && p.status) _ _
                (answer-Keeps (Endpoint.synthesize_status s e.session_mode) e)
                (by_policy-Keeps (command_policy (opcode ∷ rest)) (opcode ∷ rest) opcode e)))))
