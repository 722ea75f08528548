-- ===== src/Keyer/Protocol/Framing.antt =====
-- What the host-command parser of winkeyer/protocol.rs promises of a whole byte stream.
use cathub.Prelude.{
  ℕ, suc, ◌≤◌, ◌<◌, ◌≡◌, refl, ap, subst, ◌⊎◌, inl, inr, List, [], ◌∷◌, ◌++◌, Option, none, some,
  arith, length, length-append, append-nil, Bytes, Bool-cases, Bool, true, false, ◌&&◌, every_below,
  every_below_sound, ltb, ◌==◌,
}
use cathub.Keyer.Protocol.{
  ClientItem, char, command, ClientParser, initial_command_len, refine_variable_length, complete,
  push_onto, push,
}

-- The bytes that an item stands for.
abbrev pub wire : ClientItem → Bytes
wire (char b) = b ∷ []
wire (command c) = c

abbrev pub wire_option : Option ClientItem → Bytes
wire_option none = []
wire_option (some item) = wire item

abbrev pub wire_all : List ClientItem → Bytes
wire_all [] = []
wire_all (i ∷ is) = wire i ++ wire_all is

abbrev pub cons_option : Option ClientItem → List ClientItem → List ClientItem
cons_option none is = is
cons_option (some i) is = i ∷ is

-- All the items of a byte string, and the parser behind it.
unfoldable pub parse_all : ClientParser → Bytes → ClientParser × List ClientItem
parse_all p [] = (p, [])
parse_all p (b ∷ bs) =
    let (q, item) = push p b in let (r, items) = parse_all q bs in (r, cons_option item items)

-- The length that the tables give a command which begins with these bytes.
abbrev pub table_len : Bytes → Option ℕ
table_len [] = none
table_len (opcode ∷ []) = initial_command_len opcode
table_len (opcode ∷ sub ∷ rest) =
    refine_variable_length (opcode ∷ sub ∷ []) (initial_command_len opcode)

-- A parser between two pushes: idle, or short of the length that its command has.
abbrev pub IsFramedAt : Bytes → Option ℕ → Type 0
IsFramedAt [] e = e ≡ none
IsFramedAt (c ∷ cs) e =
    (e ≡ table_len (c ∷ cs))
    × ((n : ℕ) × (e ≡ some n) × (length (c ∷ cs) < n) × (n ≤ 258))
    × (c < 0x20)

abbrev pub IsFramed : ClientParser → Type 0
IsFramed p = IsFramedAt p.partial p.expected_len

-- One printable byte, or a command of exactly its table length.
abbrev pub IsItem : ClientItem → Type 0
IsItem (char b) = 0x1f < b
IsItem (command []) = ⊥
IsItem (command (c ∷ cs)) = (c < 0x20) × (table_len (c ∷ cs) ≡ some (length (c ∷ cs)))

abbrev pub IsItemOption : Option ClientItem → Type 0
IsItemOption none = Unit {0}
IsItemOption (some i) = IsItem i

abbrev pub Within : ℕ → Option ℕ → Type 0
Within lo none = ⊥
Within lo (some n) = (lo ≤ n) × (n ≤ 258)

abbrev within_test : Option ℕ → Bool
within_test none = false
within_test (some n) = ltb 0 n && ltb n 17

initial_table : every_below 32 (λ c. within_test (initial_command_len c)) ≡ true
unfolding every_below initial_command_len
initial_table = refl

-- Every opcode below 0x20 has a first length.
pub initial_command_len-Within : (c : ℕ) → c < 32 → Within 1 (initial_command_len c)
initial_command_len-Within c h =
    ground (arith, every_below_sound 32 (λ c. within_test (initial_command_len c)) c initial_table)

-- A command is one byte long, or its first two bytes fix a length of at least two.
refine-Within :
    (c s : ℕ) (e : Option ℕ) → Within 2 e → Within 2 (refine_variable_length (c ∷ s ∷ []) e)
unfolding refine_variable_length
refine-Within c s e h = ground arith

two_bytes : (c : ℕ) → c < 32 → (initial_command_len c ≡ some 1) ⊎ Within 2 (initial_command_len c)
two_bytes c h = ground (arith, initial_command_len-Within c)

pub initial_command_len-one :
    (c s : ℕ)
    → initial_command_len c ≡ some 1
    → refine_variable_length (c ∷ s ∷ []) (initial_command_len c) ≡ some 1
unfolding initial_command_len refine_variable_length
initial_command_len-one c s h = ground arith

-- What one step may leave: a framed parser, a well-formed item, and not a byte lost.
abbrev pub Steps : Bytes → ClientParser × Option ClientItem → Type 0
Steps before (q, item) = IsFramed q × IsItemOption item × (wire_option item ++ q.partial ≡ before)

pub complete-Steps :
    (c : ℕ) (cs : Bytes) (e : Option ℕ)
    → c < 32
    → e ≡ table_len (c ∷ cs)
    → Within (length (c ∷ cs)) e
    → Steps (c ∷ cs) (complete (record { partial = c ∷ cs; expected_len = e }))
unfolding complete
complete-Steps c cs none h t w = absurd w
complete-Steps c cs (some n) h t w = elim (Bool-cases (n == length (c ∷ cs))) [
  | inl full ↦ rw full (refl, (h, ground arith), append-nil (c ∷ cs))
  | inr short ↦ rw short ((t, (n, refl, ground arith, w.1), h), tt, refl)
]

framed-Within :
    (c : ℕ) (cs : Bytes) (e : Option ℕ) → IsFramedAt (c ∷ cs) e → Within (suc (length (c ∷ cs))) e
framed-Within c cs none f = cc f.1.1
framed-Within c cs (some m) (_, (n, e, h, k), _) = ground arith

push_onto-Steps :
    (xs : Bytes) (p : ClientParser) (b : ℕ)
    → p.partial ≡ xs
    → IsFramedAt xs p.expected_len
    → Steps (xs ++ b ∷ []) (push_onto xs p b)
unfolding push_onto
push_onto-Steps [] p b e f = elim (Bool-cases (ltb 0x1f b)) [
  | inl printable ↦ rw (printable, e) (f, ground arith, refl)
  | inr opcode ↦ rw opcode (
      complete-Steps b [] (initial_command_len b) (ground arith) refl
        (initial_command_len-Within b (ground arith)))
]
push_onto-Steps (c ∷ []) p b e f =
    complete-Steps c (b ∷ []) _ f.2 (ap (refine_variable_length (c ∷ b ∷ [])) f.0)
      (refine-Within c b p.expected_len (framed-Within c [] p.expected_len f))
push_onto-Steps (c ∷ s ∷ []) p b e f =
    complete-Steps c (s ∷ b ∷ []) p.expected_len f.2 f.0 (framed-Within c (s ∷ []) p.expected_len f)
push_onto-Steps (c ∷ s ∷ d ∷ ds) p b e f =
    complete-Steps c (s ∷ d ∷ (ds ++ b ∷ [])) p.expected_len f.2 f.0 (
      subst (λ k. Within (suc (suc (suc k))) p.expected_len)
        (omega (arith, length-append ds (b ∷ []))) (framed-Within c (s ∷ d ∷ ds) p.expected_len f))

pub push-Steps : (p : ClientParser) (b : ℕ) → IsFramed p → Steps (p.partial ++ b ∷ []) (push p b)
unfolding push
push-Steps p b f = push_onto-Steps p.partial p b refl f
