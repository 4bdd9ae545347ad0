-- ===== src/Client/Once.antt =====
-- The requests and callbacks of apps/worker/codex-live-client.mjs: how often an id occurs among those that are
-- pending and those that are settled.
use agentmeld.Prelude.{
  ℕ, suc, ◌+◌, ◌≤◌, String, Bool, true, ◌&&◌, ◌||◌, List, [], ◌∷◌, ◌++◌, Option, some, leb, length,
  map, ◌≡◌, refl, arith, contains, nat_eq, string_eq, ◌==◌, if◌then◌else◌, Bool-cases, inl, inr,
  length-append, if_elim, eq_lem,
}
use agentmeld.Prelude.Dict.{Dict, get, remove}
use agentmeld.Client.{
  NativeFrame, rejected, LiveClient, reject_all, fail, request, settle_request, verdict, call_back,
  expected_model,
}

-- How often an id stands among pending or settled requests.
unfoldable pub times : {A : Type 0} → ℕ → List (ℕ × A) → ℕ
times k [] = 0
times k ((j, a) ∷ xs) = let rest = times k xs in if j == k then suc rest else rest

-- Every id that was given out is pending or settled, once; the lists are bounded; a client that has failed
-- or is closing has nothing pending.
pub record IsClient (c : LiveClient) : Type 0 where
  pub once :
      (k : ℕ)
      → times k c.pending + times k c.settled ≡ (if leb 1 k && leb k c.sequence then 1 else 0)
  pub few_events : length c.events ≤ 4096
  pub few_callbacks : length c.callbacks ≤ 32
  pub ended : (c.failed || c.closing) ≡ true → c.pending ≡ []

times-append :
    {A : Type 0} (k : ℕ) (xs ys : List (ℕ × A)) → times k (xs ++ ys) ≡ times k xs + times k ys
unfolding times
times-append k [] ys = omega arith
times-append k ((j, a) ∷ xs) ys = ground (arith, times-append k xs ys)

times-rejected :
    (k : ℕ) (m : String) (xs : Dict ℕ (Option String))
    → times k (map (λ (p : ℕ × Option String). (p.0, rejected m)) xs) ≡ times k xs
unfolding times
times-rejected k m [] = refl
times-rejected k m ((j, a) ∷ xs) = ground (arith, times-rejected k m xs)

times-remove :
    {A : Type 0} (k j : ℕ) (xs : List (ℕ × A))
    → times k (remove j xs) ≡ (if j == k then 0 else times k xs)
unfolding times remove
times-remove k j [] = ground arith
times-remove k j ((i, a) ∷ xs) = ground (arith, times-remove k j xs)

times-get : {A : Type 0} (k : ℕ) (a : A) (xs : List (ℕ × A)) → get k xs ≡ some a → 1 ≤ times k xs
unfolding times get
times-get k a [] h = absurd (ground (arith, h))
times-get k a ((i, b) ∷ xs) h = elim (Bool-cases (i == k)) [
  | inl e ↦ ground (arith, e)
  | inr e ↦ ground (arith, e, times-get k a xs (ground (arith, h, e)))
]

pub reject_all-IsClient :
    (m : String) (c : LiveClient) (failed closing : Bool)
    → IsClient c
    → IsClient (reject_all m (record c { failed = failed; closing = closing }))
unfolding reject_all times
reject_all-IsClient m c failed closing i = record {
  once = λ k. omega (
    arith,
    i.once k,
    times-append k c.settled (map (λ (p : ℕ × Option String). (p.0, rejected m)) c.pending),
    times-rejected k m c.pending,
  );
  few_events = i.few_events;
  few_callbacks = i.few_callbacks;
  ended = λ h. refl;
}

pub fail-IsClient : (c : LiveClient) → IsClient c → IsClient (fail c)
unfolding fail
fail-IsClient c i =
    if_elim IsClient (c.closing || c.failed) _ _ (λ e. i)
      (λ e. reject_all-IsClient "native probe unavailable" c true c.closing i)

pub request-IsClient :
    (method : String) (model : Option String) (c : LiveClient)
    → IsClient c
    → IsClient (request method model c)
unfolding request times
request-IsClient method model c i =
    if_elim IsClient (c.failed || c.closing) _ _ (λ e. i)
      (λ e. record {
        once = λ k. ground (
          arith,
          i.once k,
          times-append k c.pending ((suc c.sequence, expected_model method model) ∷ []),
          eq_lem (suc c.sequence) k,
        );
        few_events = i.few_events;
        few_callbacks = i.few_callbacks;
        ended = λ h. absurd (ground (arith, h, e));
      })

pub settle_request-IsClient :
    (id : ℕ) (expected : Option String) (f : NativeFrame) (c : LiveClient)
    → get id c.pending ≡ some expected
    → IsClient c
    → IsClient (settle_request id expected f c)
unfolding settle_request times remove get
settle_request-IsClient id expected f c g i = record {
  once = λ k.
      let here = times-get id expected c.pending g in
      let new = times-append k c.settled ((id, verdict expected f) ∷ []) in
      elim (Bool-cases (id == k)) [
        | inl e ↦
            let same = (eq_lem id k).0 e in
            ground (arith, e, same, i.once k, i.once id, here, new, times-remove k id c.pending)
        | inr e ↦ ground (arith, e, i.once k, new, times-remove k id c.pending)
      ];
  few_events = i.few_events;
  few_callbacks = i.few_callbacks;
  ended = λ h. let n = i.ended h in absurd (ground (arith, n, g));
}

pub call_back-IsClient : (id : ℕ) (c : LiveClient) → IsClient c → IsClient (call_back id c)
unfolding call_back
call_back-IsClient id c i =
    if_elim IsClient c.takes_callbacks _ _
      (λ e.
        if_elim IsClient (contains id c.callbacks || leb 32 (length c.callbacks)) _ _
          (λ o. fail-IsClient c i)
          (λ o. record {
            once = i.once;
            few_events = i.few_events;
            few_callbacks = ground (arith, o, length-append c.callbacks (id ∷ []));
            ended = i.ended;
          }))
      (λ e. record {
        once = i.once;
        few_events = i.few_events;
        few_callbacks = i.few_callbacks;
        ended = i.ended;
      })
