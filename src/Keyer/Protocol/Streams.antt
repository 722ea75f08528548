-- ===== src/Keyer/Protocol/Streams.antt =====
-- Whole byte streams through the host-command parser of winkeyer/protocol.rs.
use cathub.Prelude.{
  ℕ, ◌<◌, ◌≡◌, refl, sym, subst, ◌∙◌, inl, inr, List, [], ◌∷◌, ◌++◌, Option, none, some, arith,
  length, length-append, append-nil, append_assoc, All, Bytes, Bool-cases, ==_refl, true, false,
  is_id,
}
use cathub.Keyer.Protocol.{ClientItem, char, command, ClientParser, idle, complete, push, push_onto}
use cathub.Keyer.Protocol.Framing.{
  wire, wire_all, wire_option, cons_option, parse_all, IsFramed, IsItem, IsItemOption, table_len,
  push-Steps, initial_command_len-one,
}

cons_option-wire :
    (o : Option ClientItem) (is : List ClientItem)
    → wire_all (cons_option o is) ≡ wire_option o ++ wire_all is
cons_option-wire none is = refl
cons_option-wire (some i) is = refl

cons_option-All :
    (o : Option ClientItem) (is : List ClientItem)
    → IsItemOption o
    → All IsItem is
    → All IsItem (cons_option o is)
cons_option-All none is h k = k
cons_option-All (some i) is h k = (h, k)

-- A framed parser stays framed over any byte string: what it holds back is shorter than the
-- table length of its command, which is at most 258 bytes.
pub parse_all-IsFramed : (p : ClientParser) (bs : Bytes) → IsFramed p → IsFramed (parse_all p bs).0
unfolding parse_all
parse_all-IsFramed p [] f = f
parse_all-IsFramed p (b ∷ bs) f = parse_all-IsFramed (push p b).0 bs (push-Steps p b f).0

-- Every item that a framed parser hands out is a printable byte, or a command of exactly the
-- length that the tables give it.
pub parse_all-IsItem : (p : ClientParser) (bs : Bytes) → IsFramed p → All IsItem (parse_all p bs).1
unfolding parse_all
parse_all-IsItem p [] f = tt
parse_all-IsItem p (b ∷ bs) f =
    cons_option-All (push p b).1 _ (push-Steps p b f).1
      (parse_all-IsItem (push p b).0 bs (push-Steps p b f).0)

-- From a framed parser no byte is lost, added or moved: the items and what is held back at the
-- end spell what was held back at the start and the input.
pub parse_all-wire :
    (p : ClientParser) (bs : Bytes)
    → IsFramed p
    → wire_all (parse_all p bs).1 ++ (parse_all p bs).0.partial ≡ p.partial ++ bs
unfolding parse_all
parse_all-wire p [] f = sym (append-nil p.partial)
parse_all-wire p (b ∷ bs) f =
    let s = push-Steps p b f in
    rw
      (
        cons_option-wire (push p b).1,
        append_assoc,
        parse_all-wire (push p b).0 bs s.0,
        ← append_assoc,
        s.2,
      )
      (append_assoc p.partial (b ∷ []) bs)

-- The parser that holds a string of bytes back.
abbrev holding : Bytes → ClientParser
holding xs = record { partial = xs; expected_len = table_len xs }

push-holding :
    (c : ℕ) (cs : Bytes) (b : ℕ)
    → push (holding (c ∷ cs)) b ≡ complete (holding (c ∷ (cs ++ b ∷ [])))
unfolding push push_onto complete
push-holding c [] b = refl
push-holding c (s ∷ []) b = refl
push-holding c (s ∷ d ∷ ds) b = refl

-- No command is the beginning of another.
table_len-prefix :
    (c : ℕ) (cs ys : Bytes)
    → table_len (c ∷ cs) ≡ some (length (c ∷ cs))
    → table_len (c ∷ (cs ++ ys)) ≡ some (length (c ∷ (cs ++ ys)))
    → length ys ≡ 0
table_len-prefix c [] [] h k = refl
table_len-prefix c [] (y ∷ ys) h k = ground (arith, initial_command_len-one c y)
table_len-prefix c (s ∷ cs) ys h k = ground (arith, length-append cs ys)

complete-full :
    (xs : Bytes)
    → table_len xs ≡ some (length xs)
    → complete (holding xs) ≡ (idle, some (command xs))
unfolding complete
complete-full xs h = rw h (rw (==_refl (length xs)))

complete-short :
    (xs : Bytes)
    → is_id (table_len xs) (length xs) ≡ false
    → complete (holding xs) ≡ (holding xs, none)
unfolding complete
complete-short xs h = rw h

is_id-some : (o : Option ℕ) (n : ℕ) → is_id o n ≡ true → o ≡ some n
is_id-some none n h = cc
is_id-some (some m) n h = ground arith

parse_all-cons :
    (p : ClientParser) (b : ℕ) (bs : Bytes) (q : ClientParser) (o : Option ClientItem)
    → push p b ≡ (q, o)
    → parse_all p (b ∷ bs) ≡ ((parse_all q bs).0, cons_option o (parse_all q bs).1)
unfolding parse_all
parse_all-cons p b bs q o e = rw e

-- From the held beginning of a command, its other bytes hand out the command.
feed :
    (c : ℕ) (cs : Bytes) (y : ℕ) (ys rest : Bytes)
    → table_len (c ∷ (cs ++ y ∷ ys)) ≡ some (length (c ∷ (cs ++ y ∷ ys)))
    → parse_all (holding (c ∷ cs)) (y ∷ (ys ++ rest))
      ≡ ((parse_all idle rest).0, command (c ∷ (cs ++ y ∷ ys)) ∷ (parse_all idle rest).1)
feed c cs y [] rest h =
    parse_all-cons (holding (c ∷ cs)) y rest idle (some (command (c ∷ (cs ++ y ∷ []))))
      (push-holding c cs y ∙ complete-full (c ∷ (cs ++ y ∷ [])) h)
feed c cs y (z ∷ zs) rest h =
    let grown : Bytes = cs ++ y ∷ [] in
    let same : grown ++ z ∷ zs ≡ cs ++ y ∷ z ∷ zs = append_assoc cs (y ∷ []) (z ∷ zs) in
    let full = subst (λ k. table_len (c ∷ k) ≡ some (length (c ∷ k))) (sym same) h in
    elim (Bool-cases (is_id (table_len (c ∷ grown)) (length (c ∷ grown)))) [
      | inl early ↦
          absurd (omega (arith, table_len-prefix c grown (z ∷ zs) (is_id-some _ _ early) full))
      | inr short ↦
          parse_all-cons (holding (c ∷ cs)) y (z ∷ (zs ++ rest)) (holding (c ∷ grown)) none
            (push-holding c cs y ∙ complete-short (c ∷ grown) short)
          ∙ feed c grown z zs rest full
          ∙ rw same
    ]

push-opcode : (c : ℕ) → c < 0x20 → push idle c ≡ complete (holding (c ∷ []))
unfolding push push_onto complete
push-opcode c h = ground arith

push-char : (b : ℕ) → 0x1f < b → push idle b ≡ (idle, some (char b))
unfolding push push_onto
push-char b h = ground arith

parse_all-item :
    (i : ClientItem) (rest : Bytes)
    → IsItem i
    → parse_all idle (wire i ++ rest) ≡ ((parse_all idle rest).0, i ∷ (parse_all idle rest).1)
parse_all-item (char b) rest h = parse_all-cons idle b rest idle (some (char b)) (push-char b h)
parse_all-item (command []) rest h = absurd h
parse_all-item (command (c ∷ [])) rest h =
    parse_all-cons idle c rest idle (some (command (c ∷ [])))
      (push-opcode c h.0 ∙ complete-full (c ∷ []) h.1)
parse_all-item (command (c ∷ y ∷ ys)) rest h = elim (Bool-cases (is_id (table_len (c ∷ [])) 1)) [
  | inl early ↦ absurd (omega (arith, table_len-prefix c [] (y ∷ ys) (is_id-some _ _ early) h.1))
  | inr short ↦
      parse_all-cons idle c (y ∷ (ys ++ rest)) (holding (c ∷ [])) none
        (push-opcode c h.0 ∙ complete-short (c ∷ []) short)
      ∙ feed c [] y ys rest h.1
]

-- A sequence of printable bytes and complete commands, sent to an idle parser, comes out as it
-- was sent, and leaves the parser idle.
pub parse_all-wire_all :
    (is : List ClientItem) → All IsItem is → parse_all idle (wire_all is) ≡ (idle, is)
parse_all-wire_all [] h = unfold parse_all in refl
parse_all-wire_all (i ∷ is) h = parse_all-item i (wire_all is) h.0 ∙ rw (parse_all-wire_all is h.1)
