-- ===== src/Supervisor/Inputs.antt =====
-- onInputsFetch of apps/poc/supervisor.mjs.
use agentmeld.Prelude.{
  ℕ, ◌+◌, String, Option, none, some, List, if◌then◌else◌, min, ltb, leb, length, take, drop,
  string_eq,
}
use agentmeld.Prelude.Dict.{get}
use agentmeld.Supervisor.{
  Turn, Number, absent, nat, other, Reply, inputs_data, service_error, send_frame,
}

abbrev pub chunk_limit : ℕ
chunk_limit = 262144

-- msg.offset || 0; `none` is what Number.isInteger or the sign test refuses.
unfoldable pub offset_of : Number → Option ℕ
offset_of absent = some 0
offset_of (nat n) = some n
offset_of other = none

-- Math.min(msg.length || 262144, 262144); `none` is a length below one.
unfoldable pub length_of : Number → Option ℕ
length_of absent = some chunk_limit
length_of (nat n) = some (if ltb 0 n then min n chunk_limit else chunk_limit)
length_of other = none

abbrev pub bad_range : Reply
bad_range = service_error "malformed" "bad chunk range"

unfoldable pub chunk_reply : String → List ℕ → ℕ → ℕ → Reply
chunk_reply digest bytes offset len =
    if ltb (length bytes) offset
    then bad_range
    else (let chunk = take len (drop offset bytes) in
        inputs_data digest offset chunk (leb (length bytes) (offset + length chunk)) (length bytes))

unfoldable pub fetch_reply : String → Number → Number → Turn → Reply
unfolding offset_of length_of chunk_reply
fetch_reply digest offset len t = elim (get digest t.blobs) [
  | none ↦ service_error "internal" "unknown input digest"
  | some bytes ↦ elim (offset_of offset) [
    | none ↦ bad_range
    | some o ↦ elim (length_of len) [ none ↦ bad_range | some l ↦ chunk_reply digest bytes o l ]
  ]
]

unfoldable pub on_inputs_fetch : Option String → String → Number → Number → Turn → Turn
unfolding fetch_reply
on_inputs_fetch reply digest offset len t = send_frame reply (fetch_reply digest offset len t) t
