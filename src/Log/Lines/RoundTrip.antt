-- ===== src/Log/Lines/RoundTrip.antt =====
-- Reading back what was written.
use Prim.Native.Char.{code}
use Prim.Native.String.{◌++◌ as append_str}
use Prim.Native.String.append
use text.Mathlib.TextLemmas.{append-nil as append_str-nil, append_assoc as append_str_assoc}
use mathlib.Core.List.{append-nil, append_assoc}
use lichtung.Prelude.{String, List, [], ◌∷◌, ◌++◌, false, ◌≤◌, ◌≡◌, arith}
use lichtung.Prelude.Result.{Result, ok}
use lichtung.Log.{CausalEvent}
use lichtung.Log.Lines.{Codec, LogError, write_events, lines, is_blank, read_lines, read_events}

-- No control character, as in compact JSON.
abbrev pub IsPrintable : String → Type 0
IsPrintable String.[] = Unit
IsPrintable (String.◌∷◌ c s) = (32 ≤ code c) × IsPrintable s

-- The codec reads its own text of `e`, which is one line that is not blank.
abbrev pub RoundTrips : Codec → CausalEvent → Type 0
RoundTrips codec e =
    (line : String) × (codec.to_string e ≡ ok line)
    × IsPrintable line
    × (is_blank line ≡ false)
    × (codec.from_str line ≡ ok e)

abbrev pub AllRoundTrip : Codec → List CausalEvent → Type 0
AllRoundTrip codec [] = Unit
AllRoundTrip codec (e ∷ es) = RoundTrips codec e × AllRoundTrip codec es

-- `impl Write for Vec<u8>`
abbrev pub append_to : String → String → Result LogError String
append_to s buf = ok (append_str buf s)

lines-append :
    (s rest : String) → IsPrintable s → lines (append_str s (append_str "\n" rest)) ≡ s ∷ lines rest
unfolding lines
lines-append String.[] rest h = rw append.nil (rw append.cons (rw append.nil))
lines-append (String.◌∷◌ c s) rest h = rw append.cons (ground (arith, lines-append s rest h.1))

read_lines-cons :
    (codec : Codec) (line : String) (ls : List String) (out : List CausalEvent) (e : CausalEvent)
    → is_blank line ≡ false
    → codec.from_str line ≡ ok e
    → read_lines codec (line ∷ ls) out ≡ read_lines codec ls (out ++ e ∷ [])
unfolding read_lines
read_lines-cons codec line ls out e b d = rw (b, read_lines) (rw d)

-- What `write_events` adds to a buffer, and that it is read back.
record Written (codec : Codec) (events : List CausalEvent) (buf : String) : Type 0 where
  text : String
  writes : write_events codec append_to events buf ≡ ok (append_str buf text)
  reads : (out : List CausalEvent) → read_lines codec (lines text) out ≡ ok (out ++ events)

write_events-Written :
    (codec : Codec) (events : List CausalEvent) (buf : String)
    → AllRoundTrip codec events
    → Written codec events buf
unfolding write_events lines read_lines
write_events-Written codec [] buf h = record {
  text = "";
  writes = rw append_str-nil;
  reads = λ out. rw append-nil;
}
write_events-Written codec (e ∷ events) buf ((line, encoded, printable, not_blank, decoded), h) =
    let rest = write_events-Written codec events (append_str (append_str buf line) "\n") h in
    record {
      text = append_str line (append_str "\n" rest.text);
      writes = rw encoded (rw rest.writes (simp append_str_assoc));
      reads = λ out.
          unfold read_lines in
          rw (lines-append line rest.text printable) (
            rw (read_lines-cons codec line (lines rest.text) out e not_blank decoded)
              (rw rest.reads (rw append_assoc)));
    }

-- Events that the codec round-trips are written to a fresh buffer without error, and reading the
-- buffer gives them back, all and in order.
pub read-write_events :
    (codec : Codec) (events : List CausalEvent)
    → AllRoundTrip codec events
    → (buf : String) × (write_events codec append_to events "" ≡ ok buf)
      × (read_events codec buf ≡ ok events)
unfolding read_events
read-write_events codec events h =
    let w = write_events-Written codec events "" h in
    (append_str "" w.text, w.writes, rw append.nil (w.reads []))
