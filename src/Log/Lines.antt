-- ===== src/Log/Lines.antt =====
-- crates/lichtung-log/src/lib.rs: `write_events` and `read_events`, JSON-lines. `serde_json` is a
-- parameter. A stream is the text that it carries.
pub mod RoundTrip
use Prim.Native.Char.{Char, code}
use lichtung.Prelude.{
  ℕ, String, List, [], ◌∷◌, ◌++◌, Bool, true, false, ◌&&◌, ◌||◌, leb, ltb, ◌==◌, if◌then◌else◌,
}
use lichtung.Prelude.Result.{Result, ok, ◌>>=◌}
use lichtung.Log.{CausalEvent}

pub data LogError : Type 0 where
  io json : LogError

-- `serde_json::to_string` and `serde_json::from_str` at `CausalEvent`.
pub record Codec : Type 0 where
  pub to_string : CausalEvent → Result LogError String
  pub from_str : String → Result LogError CausalEvent

module _ (codec : Codec) {W : Type 0} (write_all : String → W → Result LogError W) where
  unfoldable pub write_events : List CausalEvent → W → Result LogError W
  write_events [] w = ok w
  write_events (e ∷ events) w = do
    line ← codec.to_string e
    w' ← write_all line w
    w'' ← write_all "\n" w'
    write_events events w''

-- A character in front of the first line.
abbrev pub push : Char → List String → List String
push c [] = String.◌∷◌ c "" ∷ []
push c (l ∷ ls) = String.◌∷◌ c l ∷ ls

abbrev pub begins_line_feed : String → Bool
begins_line_feed String.[] = false
begins_line_feed (String.◌∷◌ c s) = code c == 10

-- `BufRead::lines`: a line ends at `\n`, and a `\r` in front of that belongs to the end of the line.
unfoldable pub lines : String → List String
lines String.[] = []
lines (String.◌∷◌ c s) =
    let rest = lines s in
    if code c == 10
    then "" ∷ rest
    else if (code c == 13) && begins_line_feed s
    then rest
    else push c rest

-- `char::is_whitespace`
abbrev pub is_whitespace : ℕ → Bool
is_whitespace c =
    (leb 9 c && leb c 13)
    || (c == 32)
    || (c == 133)
    || (c == 160)
    || (c == 5760)
    || (leb 8192 c && leb c 8202)
    || (c == 8232)
    || (c == 8233)
    || (c == 8239)
    || (c == 8287)
    || (c == 12288)

-- `line.trim().is_empty()`
unfoldable pub is_blank : String → Bool
is_blank String.[] = true
is_blank (String.◌∷◌ c s) = is_whitespace (code c) && is_blank s

module _ (codec : Codec) where
  -- The loop of `read_events` over the lines.
  unfoldable pub read_lines : List String → List CausalEvent → Result LogError (List CausalEvent)
  read_lines [] out = ok out
  read_lines (line ∷ ls) out = elim (is_blank line) [
    | true ↦ read_lines ls out
    | false ↦ (do e ← codec.from_str line; read_lines ls (out ++ e ∷ []))
  ]

  unfoldable pub read_events : String → Result LogError (List CausalEvent)
  unfolding lines is_blank read_lines
  read_events r = read_lines (lines r) []
