-- ===== src/Sse.antt =====
-- apps/poc/public/sse-parse.js: the parser of server-sent events. A text is the list of its UTF-16 units.
-- What Number and Math.round make of a text is given: a natural number, or nothing for a text that is
-- no finite number or a negative one.
pub mod Chunks
pub mod Retry
use agentmeld.Prelude.{
  ℕ, zero, suc, ◌+◌, Bool, true, false, ◌&&◌, List, [], ◌∷◌, ◌++◌, Option, none, some, min, max,
  nat_beq, nat_eq, list_beq, length, take, drop, if◌then◌else◌,
}
use agentmeld.Prelude.Lines.{break_line}
use agentmeld.Prelude.Text.{codes, trim, blank}

pub record Frame : Type 0 where
  pub event : List ℕ
  pub data_lines : List (List ℕ)
  pub id : List ℕ

abbrev pub new_frame : Frame
new_frame = record { event = []; data_lines = []; id = [] }

pub record SseParser : Type 0 where
  pub buf : List ℕ
  pub frame : Frame
  pub retry_ms : Option ℕ
  pub lines_seen : ℕ

abbrev pub new_parser : SseParser
new_parser = record { buf = []; frame = new_frame; retry_ms = none; lines_seen = 0 }

-- What a call of push changes but the buffer, with the frames that it returns.
pub record Progress : Type 0 where
  pub frame : Frame
  pub retry_ms : Option ℕ
  pub lines_seen : ℕ
  pub frames : List Frame

pub record Pushed : Type 0 where
  pub parser : SseParser
  pub frames : List Frame

-- A call of push before its loop, and after it.
abbrev pub start : SseParser → Progress
start p = record { frame = p.frame; retry_ms = p.retry_ms; lines_seen = p.lines_seen; frames = [] }

abbrev pub finish : List ℕ × Progress → Pushed
finish (rest, w) = record {
  parser = record { buf = rest; frame = w.frame; retry_ms = w.retry_ms; lines_seen = w.lines_seen };
  frames = w.frames;
}

-- line.replace(/\r$/, '')
unfoldable pub drop_return : List ℕ → List ℕ
drop_return [] = []
drop_return (c ∷ []) = if nat_beq c 13 then [] else c ∷ []
drop_return (c ∷ d ∷ cs) = c ∷ drop_return (d ∷ cs)

-- replace(/^ /, '')
unfoldable pub drop_space : List ℕ → List ℕ
drop_space [] = []
drop_space (c ∷ cs) = if nat_beq c b' ' then cs else c ∷ cs

-- line.indexOf(prefix) === 0
unfoldable pub has_prefix : List ℕ → List ℕ → Bool
has_prefix prefix line = list_beq (take (length prefix) line) prefix

unfoldable pub set_retry : Option ℕ → Progress → Progress
set_retry none w = w
set_retry (some n) w = record w { retry_ms = some n }

module _ (to_number : List ℕ → Option ℕ) where
  unfoldable pub clamp_retry : List ℕ → Option ℕ
  clamp_retry ms =
      if blank (trim ms)
      then none
      else elim (to_number (trim ms)) [ none ↦ none | some n ↦ some (min 30000 (max 500 n)) ]

  -- One line that is neither blank nor a comment.
  unfoldable pub read_field : List ℕ → Progress → Progress
  unfolding drop_space has_prefix clamp_retry set_retry
  read_field line w =
      if has_prefix (codes "data:") line
      then record w {
        frame = record w.frame { data_lines = w.frame.data_lines ++ drop_space (drop 5 line) ∷ [] };
      }
      else if has_prefix (codes "event:") line
      then record w { frame = record w.frame { event = trim (drop 6 line) } }
      else if has_prefix (codes "id:") line
      then record w { frame = record w.frame { id = trim (drop 3 line) } }
      else if has_prefix (codes "retry:") line
      then set_retry (clamp_retry (trim (drop 6 line))) w
      else w

  -- A blank line ends the frame; a comment is only counted.
  unfoldable pub read_text : List ℕ → Progress → Progress
  unfolding read_field
  read_text [] w = record w { frame = new_frame; frames = w.frames ++ w.frame ∷ [] }
  read_text (c ∷ cs) w = if nat_beq c b':' then w else read_field (c ∷ cs) w

  unfoldable pub read_line : List ℕ → Progress → Progress
  unfolding drop_return read_text
  read_line line w = read_text (drop_return line) (record w { lines_seen = w.lines_seen + 1 })

  -- The loop over the complete lines of the buffer, each of which takes a newline off it.
  unfoldable pub read_lines : ℕ → List ℕ → Progress → List ℕ × Progress
  unfolding break_line read_line
  read_lines zero buf w = (buf, w)
  read_lines (suc fuel) buf w = elim (break_line buf) [
    | none ↦ (buf, w)
    | some (line, rest) ↦ read_lines fuel rest (read_line line w)
  ]

  unfoldable pub push : List ℕ → SseParser → Pushed
  unfolding read_lines
  push chunk p = let buf = p.buf ++ chunk in finish (read_lines (suc (length buf)) buf (start p))

  -- The frames of successive chunks, in order.
  unfoldable pub push_all : List (List ℕ) → SseParser → Pushed
  unfolding push
  push_all [] p = record { parser = p; frames = [] }
  push_all (c ∷ cs) p =
      let first = push c p in
      let rest = push_all cs first.parser in
      record { parser = rest.parser; frames = first.frames ++ rest.frames }
