-- ===== src/Keyer/Protocol/Tests.antt =====
-- Runs of winkeyer/protocol.rs and instances of its theorems.
use cathub.Prelude.{◌≡◌, refl, List, [], ◌∷◌, ◌++◌, arith, All, Bytes}
use cathub.Keyer.Protocol.{
  ClientItem, char, command, idle, push, initial_command_len, refine_variable_length,
  command_policy, virtualized, maintenance, transient, active_owner,
}
use cathub.Keyer.Protocol.Framing.{parse_all, IsItem, wire_all}
use cathub.Keyer.Protocol.Streams.{parse_all-wire, parse_all-wire_all}

-- N1MM moves the pointer, sets the buffered speed and sends a letter.
abbrev n1mm : Bytes
n1mm = 0x16 ∷ 0x02 ∷ 0x00 ∷ 0x1c ∷ 22 ∷ b'Q' ∷ []

abbrev n1mm_items : List ClientItem
n1mm_items = command (0x16 ∷ 0x02 ∷ 0x00 ∷ []) ∷ command (0x1c ∷ 22 ∷ []) ∷ char b'Q' ∷ []

n1mm_run : parse_all idle n1mm ≡ (idle, n1mm_items)
unfolding parse_all push
n1mm_run = refl

n1mm_items-IsItem : All IsItem n1mm_items
unfolding initial_command_len refine_variable_length
n1mm_items-IsItem = ((omega arith, refl), ((omega arith, refl), (omega arith, tt)))

parse_all-wire_all_example : parse_all idle n1mm ≡ (idle, n1mm_items)
parse_all-wire_all_example = parse_all-wire_all n1mm_items n1mm_items-IsItem

parse_all-wire_example : wire_all (parse_all idle n1mm).1 ++ (parse_all idle n1mm).0.partial ≡ n1mm
parse_all-wire_example = parse_all-wire idle n1mm refl

policies :
    (command_policy (0x00 ∷ 0x02 ∷ []) ≡ virtualized)
    × (command_policy (0x00 ∷ 0x0d ∷ []) ≡ maintenance)
    × (command_policy (0x0a ∷ []) ≡ active_owner)
    × (command_policy (0x02 ∷ 20 ∷ []) ≡ transient)
unfolding command_policy
policies = (refl, refl, refl, refl)
