-- ===== src/Keyer/Endpoint/Permitted.antt =====
-- What the permissions of a virtual keyer let a session do.
use cathub.Prelude.{
  ◌≡◌, refl, sym, subst, Bool, true, false, ◌&&◌, ◌||◌, [], ◌∷◌, Option, none, some, if◌then◌else◌,
  is_empty, length, Bytes, arith, and_both, and_true, Bool-cases, inl, inr,
}
use cathub.Keyer.Protocol.{ClientItem, char, command, push}
use cathub.Keyer.Protocol.Framing.{IsFramed, IsItem, IsItemOption, table_len, push-Steps}
use cathub.Keyer.Broker.Snapshot.{BrokerSnapshot}
use cathub.Keyer.Endpoint
use cathub.Keyer.Endpoint.Spelled.{
  spelled, printable, printable-append, spelled-append, spelled-command,
}
use cathub.Keyer.Endpoint.Parsing.{handle_command-Keeps}
use cathub.Keyer.Endpoint.Effects.{
  permits, permits_all, permits_all-append, handle_command-permits_all,
}

-- During a read: what was done is permitted, what waits to be streamed is, and waits only if sending
-- is permitted, and the parser is between two bytes.
record IsPermitted (p : Endpoint.EndpointPermissions) (r : Endpoint.Reading) : Type 0 where
  done : permits_all p r.turn.effects ≡ true
  waits : (p.send || (is_empty r.buffered_prefix && is_empty r.intended_text)) ≡ true
  prefixed : spelled p 0 r.buffered_prefix ≡ true
  texts : printable r.intended_text ≡ true
  framed : IsFramed r.turn.endpoint.parser

-- A read that has nothing waiting, and one of a session that may send.
nothing :
    (p : Endpoint.EndpointPermissions) (r : Endpoint.Reading)
    → permits_all p r.turn.effects ≡ true
    → r.buffered_prefix ≡ []
    → r.intended_text ≡ []
    → IsFramed r.turn.endpoint.parser
    → IsPermitted p r
unfolding spelled
nothing p r done b t framed = record {
  done = done;
  waits = rw (b, t) (ground arith);
  prefixed = rw b refl;
  texts = rw t refl;
  framed = framed;
}

flush_stream-IsPermitted :
    (p : Endpoint.EndpointPermissions) (accepts : Endpoint.Effect → Bool) (r : Endpoint.Reading)
    → IsPermitted p r
    → IsPermitted p (Endpoint.flush_stream accepts r)
unfolding Endpoint.flush_stream
flush_stream-IsPermitted p accepts r h =
    elim (Bool-cases (is_empty r.buffered_prefix && is_empty r.intended_text)) [
      | inl empty ↦ rw empty h
      | inr something ↦
          let allowed : p.send ≡ true = ground (arith, h.waits, something) in
          let effect = Endpoint.streams r.buffered_prefix r.intended_text in
          let streamed : permits p effect ≡ true =
            and_true _ _ (and_true _ _ allowed h.prefixed) h.texts in
          rw something (
            nothing p _
              (permits_all-append p r.turn.effects (effect ∷ []) h.done
                (and_true _ true streamed refl))
              refl refl h.framed)
    ]

if-IsPermitted :
    (p : Endpoint.EndpointPermissions) (c : Bool) (x y : Endpoint.Reading)
    → (c ≡ true → IsPermitted p x)
    → IsPermitted p y
    → IsPermitted p (if c then x else y)
if-IsPermitted p true x y f g = f refl
if-IsPermitted p false x y f g = g

and_then-IsPermitted :
    (p : Endpoint.EndpointPermissions) (r : Endpoint.Reading)
    (f : Endpoint.Endpoint → Endpoint.Turn)
    → IsPermitted p r
    → permits_all p (f r.turn.endpoint).effects ≡ true
    → (f r.turn.endpoint).endpoint.parser ≡ r.turn.endpoint.parser
    → IsPermitted p (Endpoint.and_then r f)
and_then-IsPermitted p r f h done same =
    if-IsPermitted p r.turn.goes_on _ r
      (λ on. record {
        done = permits_all-append p r.turn.effects (f r.turn.endpoint).effects h.done done;
        waits = h.waits;
        prefixed = h.prefixed;
        texts = h.texts;
        framed = subst IsFramed (sym same) h.framed;
      })
      h

add_prefix-IsPermitted :
    (p : Endpoint.EndpointPermissions) (cmd : Bytes) (r : Endpoint.Reading)
    → p.send ≡ true
    → spelled p 0 cmd ≡ true
    → IsPermitted p r
    → IsPermitted p (Endpoint.add_prefix cmd r)
add_prefix-IsPermitted p cmd r allowed whole h =
    if-IsPermitted p r.turn.goes_on _ r
      (λ on. record {
        done = h.done;
        waits = ground (arith, allowed);
        prefixed = spelled-append p 0 r.buffered_prefix cmd h.prefixed whole;
        texts = h.texts;
        framed = h.framed;
      })
      h

clear-IsPermitted :
    (p : Endpoint.EndpointPermissions) (r : Endpoint.Reading)
    → IsPermitted p r
    → IsPermitted p (Endpoint.clear p r)
clear-IsPermitted p r h =
    nothing p _
      (permits_all-append p r.turn.effects (if p.send then Endpoint.cancels ∷ [] else []) h.done
        (ground arith))
      refl refl h.framed

item-table_len : (cmd : Bytes) → IsItem (command cmd) → table_len cmd ≡ some (length cmd)
item-table_len [] item = elim item [ ]
item-table_len (c ∷ cs) item = item.1

on_item-IsPermitted :
    (p : Endpoint.EndpointPermissions) (accepts : Endpoint.Effect → Bool) (s : BrokerSnapshot)
    (item : ClientItem) (r : Endpoint.Reading)
    → IsItem item
    → IsPermitted p r
    → IsPermitted p (Endpoint.on_item p accepts s item r)
unfolding Endpoint.on_item
on_item-IsPermitted p accepts s (char byte) r item h =
    if-IsPermitted p (r.turn.endpoint.opened && p.send) _ r
      (λ may. record {
        done = h.done;
        waits =
            let allowed = (and_both r.turn.endpoint.opened p.send may).1 in ground (arith, allowed);
        prefixed = h.prefixed;
        texts = printable-append r.intended_text byte h.texts (ground (arith, item));
        framed = h.framed;
      })
      h
on_item-IsPermitted p accepts s (command cmd) r item h =
    if-IsPermitted p (Endpoint.is_clear cmd) _ _ (λ c. clear-IsPermitted p r h)
      (if-IsPermitted p (Endpoint.is_buffered cmd) _ _
        (λ b.
          if-IsPermitted p (r.turn.endpoint.opened && p.send && Endpoint.buffered_allowed cmd p) _ r
            (λ may.
              let (sends, keys) =
                and_both (r.turn.endpoint.opened && p.send) (Endpoint.buffered_allowed cmd p) may in
              add_prefix-IsPermitted p cmd
                (if is_empty r.intended_text then r else Endpoint.flush_stream accepts r)
                (and_both r.turn.endpoint.opened p.send sends).1
                (spelled-command p cmd (item-table_len cmd item) b keys)
                (if-IsPermitted p (is_empty r.intended_text) r _ (λ n. h)
                  (flush_stream-IsPermitted p accepts r h)))
            h)
        (let flushed = flush_stream-IsPermitted p accepts r h in
          let e = (Endpoint.flush_stream accepts r).turn.endpoint in
          and_then-IsPermitted p (Endpoint.flush_stream accepts r)
            (Endpoint.handle_command p accepts s cmd) flushed
            (handle_command-permits_all p accepts s cmd e)
            (handle_command-Keeps p accepts s cmd e)))

on_optional-IsPermitted :
    (p : Endpoint.EndpointPermissions) (accepts : Endpoint.Effect → Bool) (s : BrokerSnapshot)
    (item : Option ClientItem) (r : Endpoint.Reading)
    → IsItemOption item
    → IsPermitted p r
    → IsPermitted p (Endpoint.on_optional p accepts s item r)
on_optional-IsPermitted p accepts s none r i h = h
on_optional-IsPermitted p accepts s (some item) r i h = on_item-IsPermitted p accepts s item r i h

on_bytes-IsPermitted :
    (p : Endpoint.EndpointPermissions) (accepts : Endpoint.Effect → Bool) (s : BrokerSnapshot)
    (bytes : Bytes) (r : Endpoint.Reading)
    → IsPermitted p r
    → IsPermitted p (Endpoint.on_bytes p accepts s bytes r)
unfolding Endpoint.on_bytes
on_bytes-IsPermitted p accepts s [] r h = h
on_bytes-IsPermitted p accepts s (byte ∷ bytes) r h =
    let parsed = push r.turn.endpoint.parser byte in
    let (framed, item, kept) = push-Steps r.turn.endpoint.parser byte h.framed in
    let reading : IsPermitted p (Endpoint.with_parser parsed.0 r) = record {
      done = h.done;
      waits = h.waits;
      prefixed = h.prefixed;
      texts = h.texts;
      framed = framed;
    } in
    if-IsPermitted p r.turn.goes_on _ r
      (λ on. on_bytes-IsPermitted p accepts s bytes (Endpoint.on_byte p accepts s byte r) (
        on_optional-IsPermitted p accepts s parsed.1 (Endpoint.with_parser parsed.0 r) item
          reading))
      h

-- Whatever bytes a client sends in a read, and whatever the scheduler and the port make of it, a
-- session whose parser is between two bytes does only what its permissions name, and leaves its parser
-- so. It streams and cancels only with send; what it streams is whole buffered commands (0x18 to 0x1f)
-- and printable text behind them, and with ptt only, a buffered command that keys (0x18, 0x19). It sets
-- speeds and settings only with control, keys by the command 0x0b only with ptt too, touches the
-- keyer's memory only with config_write, and answers only with status.
pub on_read-permits_all :
    (p : Endpoint.EndpointPermissions) (accepts : Endpoint.Effect → Bool) (s : BrokerSnapshot)
    (bytes : Bytes) (e : Endpoint.Endpoint)
    → IsFramed e.parser
    → (permits_all p (Endpoint.on_read p accepts s bytes e).effects ≡ true)
      × IsFramed (Endpoint.on_read p accepts s bytes e).endpoint.parser
unfolding Endpoint.on_read
on_read-permits_all p accepts s bytes e f =
    let start : Endpoint.Reading = record {
      turn = Endpoint.stay e [];
      buffered_prefix = [];
      intended_text = [];
    } in
    let read = on_bytes-IsPermitted p accepts s bytes start (nothing p start refl refl refl f) in
    let last =
      flush_stream-IsPermitted p accepts (Endpoint.on_bytes p accepts s bytes start) read in
    elim (Bool-cases (Endpoint.on_bytes p accepts s bytes start).turn.goes_on) [
      | inl on ↦ rw on (last.done, last.framed)
      | inr off ↦ rw off (read.done, read.framed)
    ]
