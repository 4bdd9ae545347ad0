-- ===== src/Runtime/Emit.antt =====
-- emit, queueDelta, flushDelta, queueActivity and the frames of POCClient of apps/worker/runtime.mjs.
use Prim.Native.String.{◌++◌ as text_append}
use agentmeld.Prelude.{
  ℕ, zero, suc, String, ◌&&◌, not, Option, none, some, List, [], ◌∷◌, ◌++◌, if◌then◌else◌, leb,
  length, take, drop, ◌==◌, string_eq,
}
use agentmeld.Runtime.{
  Payload, started, restored, bound, thinking, saving, activity_changed, answer_delta,
  artifacts_delivered, completed, failed, cancelled, terminated, Worker,
}

unfoldable pub event_type : Payload → String
event_type (started digest) = "run.started"
event_type (restored file_count bytes) = "run.restored"
event_type (bound session) = "provider_session.bound"
event_type thinking = "run.thinking"
event_type saving = "run.saving"
event_type (activity_changed activity) = "run.activity_changed"
event_type (answer_delta text batch_seq) = "run.answer_delta"
event_type (artifacts_delivered digest file_count bytes) = "run.artifacts_delivered"
event_type (completed digest manifest) = "run.completed"
event_type (failed stage error_user) = "run.failed"
event_type (cancelled stage) = "run.cancelled"
event_type (terminated cleanup_ok evidence) = "run.terminated"

-- An event with the key `key`, if any.
abbrev pub emit : Option String → Payload → Worker → Worker
emit key payload s = record s { log = s.log ++ record { payload = payload; dedupe_key = key } ∷ [] }

-- The option `dedupe`.
unfoldable pub once_key : String → Payload → Option String
unfolding event_type
once_key run_id payload = some (text_append run_id (text_append ":" (event_type payload)))

-- The emission of one delta, with the next batch number.
abbrev pub emit_delta : List ℕ → Worker → Worker
emit_delta text s =
    emit none (answer_delta text s.batch_seq) (record s { batch_seq = suc s.batch_seq })

-- The while loop of queueDelta, on fuel.
unfoldable pub emit_full : ℕ → Worker → Worker
emit_full zero s = s
emit_full (suc fuel) s =
    let rest =
      emit_full fuel
        (emit_delta (take 4096 s.delta_buf) (record s { delta_buf = drop 4096 s.delta_buf })) in
    if leb 4096 (length s.delta_buf) then rest else s

unfoldable pub queue_delta : List ℕ → Worker → Worker
unfolding emit_full
queue_delta chunk s =
    emit_full (length (s.delta_buf ++ chunk))
      (record s { answer = s.answer ++ chunk; delta_buf = s.delta_buf ++ chunk })

unfoldable pub flush_delta : Worker → Worker
flush_delta s = elim s.delta_buf [
  | [] ↦ s
  | c ∷ cs ↦ emit_delta (c ∷ cs) (record s { delta_buf = [] })
]

unfoldable pub queue_activity : String → Worker → Worker
queue_activity activity s =
    let queued =
      emit none (activity_changed activity) (record s { last_activity = some activity }) in
    elim s.last_activity [ none ↦ queued | some last ↦ if activity == last then s else queued ]

-- The blank line between two messages: only before a message that is not the first.
unfoldable pub separate : String → Worker → Worker
unfolding queue_delta
separate item s = elim s.message_id [
  | none ↦ s
  | some last ↦
      if not (last == "") && not (last == item) then queue_delta (b'\n' ∷ b'\n' ∷ []) s else s
]

-- The frame item/agentMessage/delta.
unfoldable pub hear_delta : String → List ℕ → Worker → Worker
unfolding separate
hear_delta item delta s = queue_delta delta (record (separate item s) { message_id = some item })
