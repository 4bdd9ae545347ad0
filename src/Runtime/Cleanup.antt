-- ===== src/Runtime/Cleanup.antt =====
-- The cleanup of apps/worker/runtime.mjs against its abort hook.
use agentmeld.Prelude.{
  ℕ, zero, suc, ◌+◌, Bool, true, false, not, ◌&&◌, ◌||◌, String, List, [], ◌∷◌, ◌++◌, Option, none,
  some, ◌≡◌, refl, sym, ap, ◌∙◌, length, arith, append_assoc, append-nil, if_elim, if◌then◌else◌,
  subst, length-append, Bool-cases, inl, inr, Option-cases, ◌⊎◌,
}
use agentmeld.Prelude.Outcome.{Outcome, done, threw, left}
use agentmeld.Runtime.{Command, remove_worker, remove_proxy, remove_network, Start, World, Worker}
use agentmeld.Runtime.Await.{await, docker, stops}
use agentmeld.Runtime.Finish.{noted, remove_one, clean_up, abort_hook}
use agentmeld.Runtime.Rest.{
  Rest, rest, removals, removals-append, is_removal, await-rest, after_await,
}

-- The number of awaits that reject, of `n` from the await `k`.
unfoldable pub rejected_awaits : World → ℕ → ℕ → ℕ
rejected_awaits w k zero = 0
rejected_awaits w k (suc n) = elim (w.failure k) [
  | none ↦ rejected_awaits w (suc k) n
  | some f ↦ suc (rejected_awaits w (suc k) n)
]

-- The calls for one target.
abbrev calls_of : Bool → Command → List Command
calls_of created command = if created then command ∷ [] else []

-- A cleanup so far: the removals called, the number of the next await, and the failures.
record IsRemoved (w : World) (s t : Worker) (failures : List String) (calls : List Command)
    : Type 0 where
  awaits : t.awaits ≡ s.awaits + length calls
  removed : removals t.commands ≡ removals s.commands ++ calls
  failed : length failures ≡ rejected_awaits w s.awaits (length calls)
  runs : (t.halted ≡ false) × (t.timer_left ≡ false)
  network : t.network_created ≡ s.network_created
  proxy : t.proxy_created ≡ s.proxy_created

rejected-append :
    (w : World) (k n : ℕ)
    → rejected_awaits w k (n + 1)
      ≡ rejected_awaits w k n + (elim (w.failure (k + n)) [ none ↦ 0 | some f ↦ 1 ])
unfolding rejected_awaits
rejected-append w k zero = elim (Option-cases (w.failure k)) [
  | inl e ↦ ground (arith, e)
  | inr (f, e) ↦ ground (arith, e)
]
rejected-append w k (suc n) =
    let next : suc k + n ≡ k + suc n = omega arith in
    elim (Option-cases (w.failure k)) [
      | inl e ↦ ground (arith, e, next, rejected-append w (suc k) n)
      | inr (f, e) ↦ ground (arith, e, next, rejected-append w (suc k) n)
    ]

-- What one call leaves, whether it goes through or not.
noted_rest :
    (label : String) (failures : List String) (o : Outcome Worker)
    → (noted label failures o).0 ≡ left o
noted_rest label failures (done t) = refl
noted_rest label failures (threw message t) = refl

-- A call whose await rejects is one more failure.
length-noted :
    (start : Start) (w : World) (label : String) (failures : List String) (t : Worker)
    → stops w t ≡ false
    → length (noted label failures (await start w t)).1
      ≡ length failures + (elim (w.failure t.awaits) [ none ↦ 0 | some f ↦ 1 ])
unfolding await
length-noted start w label failures t go = elim (Option-cases (w.failure t.awaits)) [
  | inl e ↦ ground (arith, e, go)
  | inr (f, e) ↦ ground (arith, e, go, length-append failures (label ∷ []))
]

called :
    (start : Start) (w : World) (label : String) (command : Command) (s t : Worker)
    (failures : List String) (calls : List Command)
    → ((n : ℕ) → w.stuck n ≡ false)
    → is_removal command ≡ true
    → IsRemoved w s t failures calls
    → let r = noted label failures (docker start w command t) in
      IsRemoved w s r.0 r.1 (calls ++ command ∷ [])
unfolding docker rest removals stops agentmeld.Prelude.select
called start w label command s t failures calls settled q i =
    let t' = record t { commands = t.commands ++ command ∷ [] } in
    let go : stops w t' ≡ false = ground (arith, settled t.awaits, i.runs.1) in
    let r : rest (noted label failures (await start w t')).0
        ≡ record (rest t') { awaits = suc t'.awaits } =
      ap rest (noted_rest label failures (await start w t'))
      ∙ await-rest start w t'
      ∙ ap (λ b. after_await b (record (rest t') { awaits = suc t'.awaits })) go in
    let n = length-append calls (command ∷ []) in
    let one : removals (command ∷ []) ≡ command ∷ [] = ground (arith, q) in
    record {
      awaits = ap (λ (x : Rest). x.awaits) r ∙ omega (arith, i.awaits, n);
      removed =
          ap (λ (x : Rest). x.removed) r
          ∙ removals-append t.commands (command ∷ [])
          ∙ ap (λ l. removals t.commands ++ l) one
          ∙ ap (λ l. l ++ command ∷ []) i.removed
          ∙ append_assoc (removals s.commands) calls (command ∷ []);
      failed =
          length-noted start w label failures t' go
          ∙ ap (λ k. length failures + (elim (w.failure k) [ none ↦ 0 | some f ↦ 1 ])) i.awaits
          ∙ ap (λ k. k + (elim (w.failure (s.awaits + length calls)) [ none ↦ 0 | some f ↦ 1 ]))
              i.failed
          ∙ sym (rejected-append w s.awaits (length calls))
          ∙ ap (rejected_awaits w s.awaits) (sym n);
      runs =
          (ap (λ (x : Rest). x.halted) r ∙ i.runs.0, ap (λ (x : Rest). x.timer_left) r ∙ i.runs.1);
      network = ap (λ (x : Rest). x.network_created) r ∙ i.network;
      proxy = ap (λ (x : Rest). x.proxy_created) r ∙ i.proxy;
    }

remove_one-IsRemoved :
    (start : Start) (w : World) (created : Bool) (label : String) (command : Command) (s : Worker)
    (r : Worker × List String) (calls : List Command)
    → ((n : ℕ) → w.stuck n ≡ false)
    → is_removal command ≡ true
    → IsRemoved w s r.0 r.1 calls
    → IsRemoved w s
        (remove_one start w created label command r).0
        (remove_one start w created label command r).1
        (calls ++ calls_of created command)
unfolding remove_one
remove_one-IsRemoved start w true label command s (t, failures) calls settled q i =
    if_elim (λ (r : Worker × List String). IsRemoved w s r.0 r.1 (calls ++ command ∷ []))
      (not t.halted) _ _ (λ e. called start w label command s t failures calls settled q i)
      (λ e. absurd (ground (arith, e, i.runs.0)))
remove_one-IsRemoved start w false label command s (t, failures) calls settled q i =
    subst (IsRemoved w s t failures) (sym (append-nil calls)) i

none-IsRemoved :
    (w : World) (s : Worker) → (s.halted ≡ false) × (s.timer_left ≡ false) → IsRemoved w s s [] []
unfolding rejected_awaits
none-IsRemoved w s runs = record {
  awaits = omega arith;
  removed = sym (append-nil (removals s.commands));
  failed = refl;
  runs = runs;
  network = refl;
  proxy = refl;
}

clean_up-IsRemoved :
    (start : Start) (w : World) (s : Worker)
    → ((n : ℕ) → w.stuck n ≡ false)
    → (s.halted ≡ false) × (s.timer_left ≡ false)
    → IsRemoved w s (clean_up start w s).0 (clean_up start w s).1 (
        (calls_of s.worker_created remove_worker ++ calls_of s.proxy_created remove_proxy)
        ++ calls_of s.network_created remove_network)
unfolding clean_up is_removal
clean_up-IsRemoved start w s settled runs =
    remove_one-IsRemoved start w s.network_created "network" remove_network s _ _ settled refl (
      remove_one-IsRemoved start w s.proxy_created "proxy container" remove_proxy s _ _ settled refl
        (remove_one-IsRemoved start w s.worker_created "worker container" remove_worker s (s, []) []
          settled refl (none-IsRemoved w s runs)))

calls-abort_hook :
    (s : Worker)
    → (calls_of s.worker_created remove_worker ++ calls_of s.proxy_created remove_proxy)
        ++ calls_of s.network_created remove_network
      ≡ abort_hook s
unfolding abort_hook
calls-abort_hook s = refl

-- If every await is over at some time, and no timer of a client that was never made is left, then the cleanup calls
-- the removals that the abort hook calls, in its order: those of the containers and the network that
-- exist, and no other. It goes on after a failure, and its evidence has a label
-- for each of these calls that rejects, and is empty if none does.
pub clean_up-abort_hook :
    (start : Start) (w : World) (s : Worker)
    → ((n : ℕ) → w.stuck n ≡ false)
    → (s.halted ≡ false) × (s.timer_left ≡ false)
    → (removals (clean_up start w s).0.commands ≡ removals s.commands ++ abort_hook s)
      × (length (clean_up start w s).1 ≡ rejected_awaits w s.awaits (length (abort_hook s)))
clean_up-abort_hook start w s settled runs =
    let i = clean_up-IsRemoved start w s settled runs in
    let same = calls-abort_hook s in
    (
      i.removed ∙ ap (λ (l : List Command). removals s.commands ++ l) same,
      i.failed ∙ ap (λ (l : List Command). rejected_awaits w s.awaits (length l)) same,
    )
