-- ===== src/Supervisor/Replay.antt =====
-- Retries of worker.events.append: onEventsAppend of apps/poc/supervisor.mjs applies an event once.
use agentmeld.Prelude.{
  String, true, Option, List, [], ◌∷◌, ◌++◌, map, ◌≡◌, refl, sym, ap, ◌∙◌, ◌≢◌, inl, inr, arith,
  string_eq, contains, All, Bool-cases, append_assoc, append-nil, subst,
}
use agentmeld.Prelude.Outcome.{Outcome, done, threw, left, Outcome-cases}
use agentmeld.Supervisor.{
  Turn, Env, Event, Payload, Stored, events_stored, send_frame, pending, Frame,
}
use agentmeld.Supervisor.Apply.{apply_event}
use agentmeld.Supervisor.Ledger.{SameLedger, apply_event-SameLedger}
use agentmeld.Supervisor.Append.{
  seen_row, fresh_row, mark, store_events, finish_append, on_events_append, ran, gave,
}
use agentmeld.Supervisor.Kept.{
  Knows, Grows, Grows-trans, SameLedger-Grows, mark-Grows, mark-Knows, mark-get, retried, Stores,
  Stores-next, store_events-seen, store_events-fresh, store_events-threw,
}

apply_event-done :
    (env : Env) (p : Payload) (t v : Turn) → apply_event env p t ≡ done v → SameLedger t v
apply_event-done env p t v a = rw (ap left a) at (apply_event-SameLedger env p t)

Stores-nil :
    (rows : List Stored) (t u : Turn) (all_rows : List Stored)
    → ◌≡◌ {A = Outcome (Turn × List Stored)} (done (t, rows)) (done (u, all_rows))
    → Stores [] rows t u all_rows
Stores-nil rows t u all_rows h = record {
  grows = subst (Grows t) (ap ran h) (λ id k. (k, refl));
  outbox = sym (ap (λ o. (ran o).sent) h);
  promise = sym (ap (λ o. (ran o).promise) h);
  knows = tt;
  new = [];
  split = sym (ap gave h) ∙ sym (append-nil rows);
  again = refl;
}

-- What the loop does when it gets through: it extends the ledger, knows the whole batch, and the rows
-- that it adds are those that a retry would get.
store_events-Stores :
    (env : Env) (es : List Event) (rows : List Stored) (t u : Turn) (all_rows : List Stored)
    → store_events env es rows t ≡ done (u, all_rows)
    → Stores es rows t u all_rows
store_events-Stores env [] rows t u all_rows h =
    Stores-nil rows t u all_rows (unfold store_events in h)
store_events-Stores env (e ∷ es) rows t u all_rows h =
    elim (Bool-cases (contains e.event_id t.applied_event_ids)) [
      | inl seen ↦
          Stores-next e es (seen_row e t) rows all_rows t t u (λ id k. (k, refl)) refl refl seen
            refl
            (store_events-Stores env es _ t u all_rows
              (sym (store_events-seen env e es rows t seen) ∙ h))
      | inr fresh ↦ elim (Outcome-cases (apply_event env e.payload t)) [
        | inl (v, a) ↦
            let s = apply_event-done env e.payload t v a in
            let g =
              Grows-trans t v (mark e v) (SameLedger-Grows t v s)
                (mark-Grows e v (rw s.ids fresh)) in
            Stores-next e es (fresh_row e v) rows all_rows t (mark e v) u g s.outbox s.settled
              (mark-Knows e v) (ground (arith, mark-get e v))
              (store_events-Stores env es _ (mark e v) u all_rows
                (sym (store_events-fresh env e es rows t v fresh a) ∙ h))
        | inr (m, v, a) ↦ cc (store_events-threw env e es rows t m v fresh a)
      ]
    ]

pub promise-store_events :
    (env : Env) (es : List Event) (rows : List Stored) (t u : Turn) (all_rows : List Stored)
    → store_events env es rows t ≡ done (u, all_rows)
    → u.promise ≡ t.promise
promise-store_events env es rows t u all_rows h =
    (store_events-Stores env es rows t u all_rows h).promise

-- A batch that is known already changes nothing.
store_events-known :
    (env : Env) (es : List Event) (rows : List Stored) (t : Turn)
    → All (λ (e : Event). Knows t e.event_id) es
    → store_events env es rows t ≡ done (t, rows ++ map (λ (e : Event). seen_row e t) es)
store_events-known env [] rows t h = unfold store_events in rw append-nil
store_events-known env (e ∷ es) rows t h =
    store_events-seen env e es rows t h.0
    ∙ store_events-known env es (rows ++ seen_row e t ∷ []) t h.1
    ∙ ap (λ r. done (t, r)) (append_assoc rows (seen_row e t ∷ []) _)

record Finished (reply : Option String) (v : Turn) (rows : List Stored) (u : Turn) : Type 0 where
  ids : u.applied_event_ids ≡ v.applied_event_ids
  seqs : u.event_seq_by_id ≡ v.event_seq_by_id
  outbox : u.sent ≡ v.sent ++ record { in_reply_to = reply; body = events_stored rows } ∷ []
  closed : u.turn_done ≡ true → u.promise ≢ pending

finish_append-Finished :
    (env : Env) (reply : Option String) (v u : Turn) (rows : List Stored)
    → finish_append env reply (v, rows) ≡ done u
    → Finished reply v rows u
unfolding finish_append
finish_append-Finished env reply v u rows h = record {
  ids = ground arith;
  seqs = ground arith;
  outbox = ground arith;
  closed = λ d e. ground arith;
}

finish_append_again :
    (env : Env) (reply : Option String) (u : Turn) (rows : List Stored)
    → env.saved ≡ true
    → (u.turn_done ≡ true → u.promise ≢ pending)
    → finish_append env reply (u, rows) ≡ done (send_frame reply (events_stored rows) u)
unfolding finish_append
finish_append_again env reply u rows saved closed = ground arith

rows_again :
    (es : List Event) (v u : Turn)
    → u.event_seq_by_id ≡ v.event_seq_by_id
    → map (λ (e : Event). seen_row e v) es ≡ map (λ (e : Event). seen_row e u) es
rows_again [] v u h = refl
rows_again (e ∷ es) v u h = ground (arith, h, rows_again es v u h)

Knows-All :
    (es : List Event) (v u : Turn)
    → u.applied_event_ids ≡ v.applied_event_ids
    → All (λ (e : Event). Knows v e.event_id) es
    → All (λ (e : Event). Knows u e.event_id) es
Knows-All [] v u h k = tt
Knows-All (e ∷ es) v u h k = (rw h k.0, Knows-All es v u h k.1)

-- The answer of a handled batch, and what a second handling of the same batch does.
abbrev pub RetryOf : Env → Option String → Option String → List Event → Turn → Turn → Type 0
RetryOf env' reply reply' events t u =
    (rows : List Stored) × (u.sent
      ≡ t.sent ++ record { in_reply_to = reply; body = events_stored rows } ∷ [])
    × (on_events_append env' reply' events u
        ≡ done (send_frame reply' (events_stored (map retried rows)) u))

retry_of :
    (env' : Env) (reply reply' : Option String) (events : List Event) (t v u : Turn)
    (rows : List Stored)
    → Stores events [] t v rows
    → Finished reply v rows u
    → env'.saved ≡ true
    → RetryOf env' reply reply' events t u
unfolding on_events_append
retry_of env' reply reply' events t v u rows s f saved =
    let known = Knows-All events v u f.ids s.knows in
    let same = sym (rows_again events v u f.seqs) ∙ sym s.again ∙ ap (map retried) (sym s.split) in
    (
      rows,
      f.outbox
          ∙ ap
              (λ (l : List Frame).
                l ++ record { in_reply_to = reply; body = events_stored rows } ∷ [])
              s.outbox,
      rw (store_events-known env' events [] u known, on_events_append)
          (rw same (finish_append_again env' reply' u (map retried rows) saved f.closed)),
    )

-- If a batch was handled to its end, then handling it again, as after a lost ack, with a store that
-- saves, changes nothing of the turn but the outbox: the answer has the rows of the first answer, with
-- the original sequence numbers, each marked as a duplicate.
pub on_events_append_retry :
    (env env' : Env) (reply reply' : Option String) (events : List Event) (t u : Turn)
    → on_events_append env reply events t ≡ done u
    → env'.saved ≡ true
    → RetryOf env' reply reply' events t u
unfolding on_events_append
on_events_append_retry env env' reply reply' events t u h saved =
    elim (Outcome-cases (store_events env events [] t)) [
      | inl (r, e) ↦
          retry_of env' reply reply' events t r.0 u r.1
            (store_events-Stores env events [] t r.0 r.1 e)
            (finish_append-Finished env reply r.0 u r.1 (rw (e, on_events_append) at h)) saved
      | inr (m, r, e) ↦ absurd (retry_threw m r e)
    ]
  where
    retry_threw :
        (m : String) (r : Turn × List Stored) → store_events env events [] t ≡ threw m r → ⊥
    retry_threw m r e = let k : threw m r.0 ≡ done u = rw (e, on_events_append) at h in cc
