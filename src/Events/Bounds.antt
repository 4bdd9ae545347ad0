-- ===== src/Events/Bounds.antt =====
-- How many milestones apps/poc/events.mjs can record for a task.
use agentmeld.Prelude.{
  ℕ, suc, ◌+◌, ◌≤◌, true, false, List, [], ◌∷◌, ◌++◌, ◌≡◌, refl, arith, if◌then◌else◌, any, length,
  take, take_all, map, ◌∙◌, ap,
}
use agentmeld.Data.{Kind, Milestone, Task}
use agentmeld.Events.{rank, label, same_kind, record_event, public_events, PublicEvent}

unfoldable pub count : Kind → List Milestone → ℕ
count k [] = 0
count k (e ∷ es) = if same_kind e.kind k then suc (count k es) else count k es

-- No kind is recorded twice.
abbrev pub IsOnce : Task → Type 0
IsOnce t = (k : Kind) → count k t.events ≤ 1

abbrev total : List Milestone → ℕ
total es =
    count Kind.queued es
    + count Kind.started es
    + count Kind.restored es
    + count Kind.thinking es
    + count Kind.saving es
    + count Kind.completed es
    + count Kind.failed es
    + count Kind.cancelled es
    + count Kind.interrupted es
    + count Kind.cancelling es

abbrev tally : Kind → Kind → ℕ → ℕ
tally a k n = if same_kind a k then suc n else n

one_tally :
    (a : Kind) (n₀ n₁ n₂ n₃ n₄ n₅ n₆ n₇ n₈ n₉ : ℕ)
    → tally a Kind.queued n₀
        + tally a Kind.started n₁
        + tally a Kind.restored n₂
        + tally a Kind.thinking n₃
        + tally a Kind.saving n₄
        + tally a Kind.completed n₅
        + tally a Kind.failed n₆
        + tally a Kind.cancelled n₇
        + tally a Kind.interrupted n₈
        + tally a Kind.cancelling n₉
      ≡ suc (n₀ + n₁ + n₂ + n₃ + n₄ + n₅ + n₆ + n₇ + n₈ + n₉)
unfolding same_kind
one_tally Kind.queued n₀ n₁ n₂ n₃ n₄ n₅ n₆ n₇ n₈ n₉ = omega arith
one_tally _ n₀ n₁ n₂ n₃ n₄ n₅ n₆ n₇ n₈ n₉ = omega arith

total-length : (es : List Milestone) → total es ≡ length es
unfolding count
total-length [] = refl
total-length (e ∷ es) = one_tally e.kind _ _ _ _ _ _ _ _ _ _ ∙ ap suc (total-length es)

count-append :
    (k : Kind) (es : List Milestone) (e : Milestone)
    → count k (es ++ e ∷ []) ≡ tally e.kind k (count k es)
unfolding count
count-append k [] e = refl
count-append k (x ∷ es) e = ground (arith, count-append k es e)

count_absent :
    (k : Kind) (es : List Milestone) → any (λ e. same_kind e.kind k) es ≡ false → count k es ≡ 0
unfolding count any
count_absent k [] h = refl
count_absent k (e ∷ es) h = ground (arith, count_absent k es)

same_kind-eq : (a b : Kind) → same_kind a b ≡ true → rank a ≡ rank b
unfolding same_kind
same_kind-eq a b h = ground arith

count-cong : (a b : Kind) (es : List Milestone) → rank a ≡ rank b → count a es ≡ count b es
unfolding count same_kind
count-cong a b [] h = refl
count-cong a b (e ∷ es) h = ground (arith, count-cong a b es)

record_event-IsOnce : (now : ℕ) (k : Kind) (t : Task) → IsOnce t → IsOnce (record_event now k t)
unfolding record_event
record_event-IsOnce now k t h j = ground (
  arith,
  h j,
  count-append j t.events (record { id = (t.id, k); kind = k; at = now }),
  count_absent k t.events,
  same_kind-eq k j,
  count-cong k j t.events,
)

-- The service records a sequence of milestones, each at its time.
pub record_all : List (ℕ × Kind) → Task → Task
record_all [] t = t
record_all ((now, k) ∷ ks) t = record_all ks (record_event now k t)

record_all-IsOnce : (ks : List (ℕ × Kind)) (t : Task) → IsOnce t → IsOnce (record_all ks t)
unfolding record_all
record_all-IsOnce [] t h = h
record_all-IsOnce ((now, k) ∷ ks) t h =
    record_all-IsOnce ks (record_event now k t) (record_event-IsOnce now k t h)

length-IsOnce : (t : Task) → IsOnce t → length t.events ≤ 10
length-IsOnce t h = omega (
  arith,
  total-length t.events,
  h Kind.queued,
  h Kind.started,
  h Kind.restored,
  h Kind.thinking,
  h Kind.saving,
  h Kind.completed,
  h Kind.failed,
  h Kind.cancelled,
  h Kind.interrupted,
  h Kind.cancelling,
)

-- Whatever milestones are recorded for a task that holds no kind twice, in whatever order and however
-- often, it still holds no kind twice, holds at most ten, and the public view shows every one of
-- them: its cut at sixteen never drops a milestone.
pub public_events-record_all :
    (ks : List (ℕ × Kind)) (t : Task)
    → IsOnce t
    → IsOnce (record_all ks t)
      × (length (record_all ks t).events ≤ 10)
      × (map (λ (e : PublicEvent). e.kind) (public_events (record_all ks t))
          ≡ map (λ (e : Milestone). e.kind) (record_all ks t).events)
unfolding public_events
public_events-record_all ks t h =
    let once = record_all-IsOnce ks t h in
    let short = length-IsOnce (record_all ks t) once in
    (once, short, shown (record_all ks t).events (omega arith))
  where
    kinds_of :
        (es : List Milestone)
        → map
            (λ (e : PublicEvent). e.kind)
            (map
              (λ (e : Milestone). record {
                id = e.id;
                kind = e.kind;
                at = e.at;
                label = label e.kind;
              })
              es)
          ≡ map (λ (e : Milestone). e.kind) es
    kinds_of [] = refl
    kinds_of (e ∷ es) = ap (λ r. e.kind ∷ r) (kinds_of es)

    shown :
        (es : List Milestone)
        → length es ≤ 16
        → map
            (λ (e : PublicEvent). e.kind)
            (map
              (λ (e : Milestone). record {
                id = e.id;
                kind = e.kind;
                at = e.at;
                label = label e.kind;
              })
              (take 16 es))
          ≡ map (λ (e : Milestone). e.kind) es
    shown es h = rw (take_all 16 es h) (kinds_of es)
