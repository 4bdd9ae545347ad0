-- ===== src/Track/Steps.antt =====
-- The tool steps of a run in apps/poc/public/client-track.js: from the stream, from the persisted rows,
-- and from approvals that ended.
use Prim.Native.String.{◌++◌ as text_append}
use agentmeld.Prelude.{
  String, Bool, true, false, ◌&&◌, ◌||◌, not, List, [], ◌∷◌, Option, none, some, contains,
  string_eq, if◌then◌else◌, ◌==◌, ◌≡◌, arith, eq_lem, ◌∙◌,
}
use agentmeld.Prelude.Dict.{Dict, get, put, get-put}
use agentmeld.Track.{Step, StepPayload, Steps, Approval}

-- a || b on texts
abbrev pub or_text : String → String → String
or_text a b = if a == "" then b else a

-- stepMap(runId, true)
unfoldable pub step_map : String → Steps → Dict String Step
step_map run steps = elim (get run steps) [ none ↦ [] | some m ↦ m ]

abbrev pub has_step : String → Dict String Step → Bool
has_step key m = elim (get key m) [ none ↦ false | some s ↦ true ]

abbrev pub started_step : StepPayload → Step
started_step p = record {
  key = p.call_key;
  tool = or_text p.tool_name "tool";
  title = p.title;
  state = "running";
}

unfoldable pub step_started : String → StepPayload → Steps → Steps
unfolding step_map
step_started run p steps =
    if run == "" || p.call_key == ""
    then steps
    else if has_step p.call_key (step_map run steps)
    then steps
    else put run (put p.call_key (started_step p) (step_map run steps)) steps

abbrev pub final_state : String → String
final_state s = if contains s ("completed" ∷ "failed" ∷ "cancelled" ∷ []) then s else "unknown"

-- A finish without a start shows nothing.
unfoldable pub step_finished : String → StepPayload → Steps → Steps
unfolding step_map
step_finished run p steps =
    if run == "" || p.call_key == "" then steps else elim (get p.call_key (step_map run steps)) [
      | none ↦ steps
      | some s ↦
          put run (put p.call_key (record s { state = final_state p.state }) (step_map run steps))
            steps
    ]

-- STEP_STATE_LABEL[state]
unfoldable pub step_label : String → Option String
step_label s =
    if s == "running"
    then some "Running"
    else if s == "completed"
    then some "Done"
    else if s == "failed"
    then some "Failed"
    else if s == "denied"
    then some "Denied"
    else if s == "cancelled"
    then some "Cancelled"
    else if s == "unknown"
    then some "Unknown"
    else none

unfoldable pub row_step : StepPayload → Step
unfolding step_label
row_step r = record {
  key = r.call_key;
  tool = or_text r.tool_name "tool";
  title = r.title;
  state = elim (step_label r.state) [ none ↦ "unknown" | some l ↦ r.state ];
}

-- The loop of hydrateSteps: a row is added if its key is absent.
unfoldable pub add_row : StepPayload → Dict String Step → Dict String Step
unfolding row_step
add_row r m = if r.call_key == "" || has_step r.call_key m then m else put r.call_key (row_step r) m

unfoldable pub add_rows : List StepPayload → Dict String Step → Dict String Step
unfolding add_row
add_rows [] m = m
add_rows (r ∷ rows) m = add_rows rows (add_row r m)

-- The end of hydrateSteps, with the rows that were fetched; no rows if the fetch failed.
unfoldable pub hydrate : String → List StepPayload → Steps → Steps
unfolding add_rows step_map
hydrate run rows steps = put run (add_rows rows (step_map run steps)) steps

-- projectTerminalStep
unfoldable pub project_terminal_step : Approval → Steps → Steps
unfolding step_map
project_terminal_step a steps =
    let key = text_append "approval:" a.id in
    put a.run_id
      (put key
        (record {
          key = key;
          tool = or_text a.tool "tool";
          title = a.description_user;
          state = if a.state == "denied" then "denied" else "cancelled";
        })
        (step_map a.run_id steps))
      steps

-- The first row under a key.
unfoldable pub row_of : String → List StepPayload → Option Step
unfolding row_step
row_of key [] = none
row_of key (r ∷ rows) =
    if not (r.call_key == "") && r.call_key == key then some (row_step r) else row_of key rows

get-add_row :
    (key : String) (r : StepPayload) (m : Dict String Step)
    → get key (add_row r m) ≡ elim (get key m) as (λ _. Option Step) [
      | none ↦ if not (r.call_key == "") && r.call_key == key then some (row_step r) else none
      | some s ↦ some s
    ]
unfolding add_row
get-add_row key r m = ground (arith, get-put r.call_key key (row_step r) m, eq_lem r.call_key key)

-- Rows complete the steps that are shown: a step that is there stays as it is, and any other key shows
-- its first row, if it has one.
pub get-add_rows :
    (key : String) (rows : List StepPayload) (m : Dict String Step)
    → get key (add_rows rows m)
      ≡ elim (get key m) as (λ _. Option Step) [ none ↦ row_of key rows | some s ↦ some s ]
unfolding add_rows row_of
get-add_rows key [] m = ground arith
get-add_rows key (r ∷ rows) m =
    get-add_rows key rows (add_row r m) ∙ ground (arith, get-add_row key r m)
