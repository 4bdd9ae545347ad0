-- ===== src/Supervisor/Kept.antt =====
-- What the loop of onEventsAppend in apps/poc/supervisor.mjs keeps of the events that it has applied.
use agentmeld.Prelude.{
  String, true, false, some, List, [], ◌∷◌, ◌++◌, map, ◌≡◌, refl, ap, ◌∙◌, arith, eq_lem, eq_self,
  string_eq, contains, contains-append, All, append_assoc,
}
use agentmeld.Prelude.Dict.{get, get-put}
use agentmeld.Prelude.Outcome.{done, threw}
use agentmeld.Supervisor.{Turn, Env, Event, Stored}
use agentmeld.Supervisor.Apply.{apply_event}
use agentmeld.Supervisor.Ledger.{SameLedger}
use agentmeld.Supervisor.Append.{seen_row, fresh_row, mark, store_events}

abbrev pub Knows : Turn → String → Type 0
Knows t id = contains id t.applied_event_ids ≡ true

-- What was applied stays applied, with its number.
abbrev pub Grows : Turn → Turn → Type 0
Grows t u =
    (id : String) → Knows t id → Knows u id × (get id u.event_seq_by_id ≡ get id t.event_seq_by_id)

pub Grows-trans : (t u v : Turn) → Grows t u → Grows u v → Grows t v
Grows-trans t u v f g id k = let (k', e) = f id k in let (k'', e') = g id k' in (k'', e' ∙ e)

pub SameLedger-Grows : (t u : Turn) → SameLedger t u → Grows t u
SameLedger-Grows t u s id k = (rw s.ids k, ap (get id) s.seqs)

pub mark-Grows :
    (e : Event) (t : Turn) → contains e.event_id t.applied_event_ids ≡ false → Grows t (mark e t)
mark-Grows e t fresh id k = (
  rw (contains-append id t.applied_event_ids (e.event_id ∷ []), k) refl,
  rw (get-put e.event_id id t.event_seq t.event_seq_by_id) (ground (arith, eq_lem e.event_id id)),
)

pub mark-Knows : (e : Event) (t : Turn) → Knows (mark e t) e.event_id
unfolding contains
mark-Knows e t =
    ground
      (arith, contains-append e.event_id t.applied_event_ids (e.event_id ∷ []), eq_self e.event_id)

pub mark-get : (e : Event) (t : Turn) → get e.event_id (mark e t).event_seq_by_id ≡ some t.event_seq
mark-get e t =
    rw (get-put e.event_id e.event_id t.event_seq t.event_seq_by_id, eq_self e.event_id) refl

-- The row of a retry.
abbrev pub retried : Stored → Stored
retried r = record r { duplicate = true }

pub record Stores (es : List Event) (rows : List Stored) (t u : Turn) (all_rows : List Stored)
    : Type 0 where
  pub grows : Grows t u
  pub outbox : u.sent ≡ t.sent
  pub promise : u.promise ≡ t.promise
  pub knows : All (λ (e : Event). Knows u e.event_id) es
  pub new : List Stored
  pub split : all_rows ≡ rows ++ new
  pub again : map retried new ≡ map (λ (e : Event). seen_row e u) es

pub Stores-next :
    (e : Event) (es : List Event) (row : Stored) (rows all_rows : List Stored) (t v u : Turn)
    → Grows t v
    → v.sent ≡ t.sent
    → v.promise ≡ t.promise
    → Knows v e.event_id
    → retried row ≡ seen_row e v
    → Stores es (rows ++ row ∷ []) v u all_rows
    → Stores (e ∷ es) rows t u all_rows
Stores-next e es row rows all_rows t v u g o p k same s =
    let (k', n) = s.grows e.event_id k in
    record {
      grows = Grows-trans t v u g s.grows;
      outbox = s.outbox ∙ o;
      promise = s.promise ∙ p;
      knows = (k', s.knows);
      new = row ∷ s.new;
      split = s.split ∙ append_assoc rows (row ∷ []) s.new;
      again = ground (arith, same, n, s.again);
    }

module _ (env : Env) (e : Event) (es : List Event) (rows : List Stored) (t : Turn) where
  pub store_events-seen :
      Knows t e.event_id
      → store_events env (e ∷ es) rows t ≡ store_events env es (rows ++ seen_row e t ∷ []) t
  unfolding store_events
  store_events-seen seen = rw (seen, store_events)

  pub store_events-fresh :
      (v : Turn)
      → contains e.event_id t.applied_event_ids ≡ false
      → apply_event env e.payload t ≡ done v
      → store_events env (e ∷ es) rows t
        ≡ store_events env es (rows ++ fresh_row e v ∷ []) (mark e v)
  unfolding store_events
  store_events-fresh v fresh a = rw (fresh, store_events) (rw (a, store_events))

  pub store_events-threw :
      (m : String) (v : Turn)
      → contains e.event_id t.applied_event_ids ≡ false
      → apply_event env e.payload t ≡ threw m v
      → store_events env (e ∷ es) rows t ≡ threw m (v, rows)
  unfolding store_events
  store_events-threw m v fresh a = rw (fresh, store_events) (rw (a, store_events))
