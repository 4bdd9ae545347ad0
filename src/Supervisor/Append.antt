-- ===== src/Supervisor/Append.antt =====
-- onEventsAppend of apps/poc/supervisor.mjs, run whole: as it goes when nothing comes between its awaits.
-- Supervisor/Jobs cuts it there.
use agentmeld.Prelude.{
  ◌+◌, String, true, false, Option, some, List, [], ◌∷◌, ◌++◌, if◌then◌else◌, contains, string_eq,
}
use agentmeld.Prelude.Dict.{get, put}
use agentmeld.Prelude.Outcome.{Outcome, done, threw, left}
use agentmeld.Supervisor.{
  Turn, Env, Event, Stored, events_stored, send_frame, settle, resolved, rejected,
}
use agentmeld.Supervisor.Apply.{apply_event}

-- A retry of an applied event: the row holds the sequence of the first time.
abbrev pub seen_row : Event → Turn → Stored
seen_row e t = record {
  event_id = e.event_id;
  seq = get e.event_id t.event_seq_by_id;
  duplicate = true;
}

abbrev pub fresh_row : Event → Turn → Stored
fresh_row e t = record { event_id = e.event_id; seq = some t.event_seq; duplicate = false }

-- The bookkeeping after an event is applied.
abbrev pub mark : Event → Turn → Turn
mark e t = record t {
  applied_event_ids = t.applied_event_ids ++ e.event_id ∷ [];
  event_seq_by_id = put e.event_id t.event_seq t.event_seq_by_id;
  event_seq = t.event_seq + 1;
}

-- The loop over the batch, with the rows so far.
unfoldable pub store_events : Env → List Event → List Stored → Turn → Outcome (Turn × List Stored)
store_events env [] rows t = done (t, rows)
store_events env (e ∷ es) rows t = elim (contains e.event_id t.applied_event_ids) [
  | true ↦ store_events env es (rows ++ seen_row e t ∷ []) t
  | false ↦ elim (apply_event env e.payload t) [
    | done t' ↦ store_events env es (rows ++ fresh_row e t' ∷ []) (mark e t')
    | threw m t' ↦ threw m (t', rows)
  ]
]

-- The turn and the rows as the loop leaves them.
abbrev pub ran : Outcome (Turn × List Stored) → Turn
ran o = (left o).0

abbrev pub gave : Outcome (Turn × List Stored) → List Stored
gave o = (left o).1

-- After the loop: save, answer, and settle a turn that is done.
unfoldable pub finish_append : Env → Option String → Turn × List Stored → Outcome Turn
unfolding settle
finish_append env reply (t, rows) =
    if env.saved
    then (let acked = send_frame reply (events_stored rows) t in
        done (
          if acked.turn_done
          then (if acked.saw_terminal
              then settle resolved acked
              else settle (rejected "worker terminated without completing") acked)
          else acked))
    else threw "save failed" t

unfoldable pub on_events_append : Env → Option String → List Event → Turn → Outcome Turn
unfolding store_events finish_append
on_events_append env reply events t = elim (store_events env events [] t) [
  | done r ↦ finish_append env reply r
  | threw m r ↦ threw m r.0
]
