-- ===== src/Examples/Streams.antt =====
-- Chunks read by apps/worker/framing.mjs and by apps/poc/public/sse-parse.js, with concrete bytes.
use agentmeld.Prelude.{
  ℕ, ◌≤◌, String, true, false, none, some, List, [], ◌∷◌, ◌++◌, ◌≡◌, refl, Option, arith, length,
  nat_eq, list_beq, if◌then◌else◌, ◌≢◌,
}
use agentmeld.Prelude.Text.{codes, trim, blank}
use agentmeld.Prelude.Lines.{joined, break_line}
use agentmeld.Framing.{new_reader, on_data, on_chunks}
use agentmeld.Framing.Sent.{IsCodec, written, on_chunks-written}
use agentmeld.Sse.{new_parser, push, push_all}
use agentmeld.Sse.Chunks.{push_all-joined}

-- Messages `a` and `b` as one letter each.
data Letter : Type 0 where
  a b : Letter

abbrev encode : Letter → List ℕ
encode Letter.a = b'a' ∷ []
encode Letter.b = b'b' ∷ []

abbrev parse : List ℕ → Option Letter
parse bytes =
    if list_beq bytes (b'a' ∷ [])
    then some Letter.a
    else if list_beq bytes (b'b' ∷ [])
    then some Letter.b
    else none

abbrev quiet : Letter → Option String
quiet m = none

codec : IsCodec encode parse 1
unfolding break_line list_beq
codec = record { one_line = one_line; nonempty = nonempty; read_back = read_back; short = short }
  where
    one_line : (m : Letter) → break_line (encode m) ≡ none
    one_line Letter.a = refl
    one_line Letter.b = refl

    nonempty : (m : Letter) → encode m ≢ []
    nonempty Letter.a e = ground arith
    nonempty Letter.b e = ground arith

    read_back : (m : Letter) → parse (encode m) ≡ some m
    read_back Letter.a = refl
    read_back Letter.b = refl

    short : (m : Letter) → length (encode m) ≤ 1
    short Letter.a = omega arith
    short Letter.b = omega arith

abbrev cut_chunks : List (List ℕ)
cut_chunks = (b'a' ∷ []) ∷ (10 ∷ b'b' ∷ []) ∷ [] ∷ (10 ∷ []) ∷ []

on_chunks-written_example :
    on_chunks parse quiet 9 cut_chunks new_reader
    ≡ record { buffer = []; ended = false; heard = Letter.a ∷ Letter.b ∷ []; errors = [] }
unfolding written joined
on_chunks-written_example =
    on_chunks-written parse quiet encode 1 codec (λ m. refl) 9 cut_chunks (Letter.a ∷ Letter.b ∷ [])
      (omega arith, (omega arith, (omega arith, (omega arith, tt)))) refl

-- A handler that throws on the first line hears the second line of the same chunk.
abbrev throws_on_a : Letter → Option String
throws_on_a Letter.a = some "refused"
throws_on_a Letter.b = none

hear_after_throw : on_data parse throws_on_a 9 (b'a' ∷ 10 ∷ b'b' ∷ 10 ∷ []) new_reader ≡ record {
  buffer = [];
  ended = true;
  heard = Letter.a ∷ Letter.b ∷ [];
  errors = "refused" ∷ [];
}
unfolding on_data list_beq
hear_after_throw = refl

-- Two frames within the cap are refused when they arrive together.
cap_of_two :
    (on_data parse quiet 3 (b'a' ∷ 10 ∷ b'b' ∷ 10 ∷ []) new_reader).errors
    ≡ "frame exceeds 1 MiB cap" ∷ []
unfolding on_data
cap_of_two = refl

abbrev to_number : List ℕ → Option ℕ
to_number s = some (length s)

abbrev sse_chunks : List (List ℕ)
sse_chunks =
    codes "id: 7"
    ∷ (10 ∷ codes "da")
    ∷ (codes "ta: x" ++ 10 ∷ 10 ∷ codes "retry: 1")
    ∷ (10 ∷ [])
    ∷ []

sse_frames :
    (push_all to_number sse_chunks new_parser).frames
    ≡ record { event = []; data_lines = codes "x" ∷ []; id = codes "7" } ∷ []
unfolding push_all list_beq trim blank
sse_frames = refl

push_all-joined_example :
    push_all to_number sse_chunks new_parser ≡ push to_number (joined sse_chunks) new_parser
unfolding break_line
push_all-joined_example = push_all-joined to_number sse_chunks new_parser refl
