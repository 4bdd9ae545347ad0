-- ===== src/Client/Settled.antt =====
-- Each request of apps/worker/codex-live-client.mjs is settled once at most, and its lists are bounded.
use agentmeld.Prelude.{
  ℕ, Bool, true, not, ◌||◌, List, [], ◌∷◌, none, some, leb, length, ◌≡◌, arith, nat_eq, string_eq,
  ◌==◌, if◌then◌else◌, Option-cases, inl, inr, length-append, if_elim, subst, any,
}
use agentmeld.Prelude.Dict.{get}
use agentmeld.Client.{
  NativeFrame, LiveClient, fail, close_client, request, settle_request, call_back, keep_event,
  reply_or_event, frame, wait, ClientCall, requests, hears, waits_for, handles, callback_done,
  fails, closes, client_call, client_calls,
}
use agentmeld.Client.Once.{
  IsClient, reject_all-IsClient, fail-IsClient, request-IsClient, settle_request-IsClient,
  call_back-IsClient,
}

keep_event-IsClient : (f : NativeFrame) (c : LiveClient) → IsClient c → IsClient (keep_event f c)
unfolding keep_event
keep_event-IsClient f c i =
    if_elim IsClient (leb 4096 (length c.events)) _ _ (λ e. fail-IsClient c i)
      (λ e. record {
        once = i.once;
        few_events = ground (arith, e, length-append c.events (f ∷ []));
        few_callbacks = i.few_callbacks;
        ended = i.ended;
      })

event-IsClient :
    (f : NativeFrame) (c : LiveClient)
    → IsClient c
    → IsClient (elim f.method [ none ↦ c | some method ↦ keep_event f c ])
event-IsClient f c i =
    elim f.method as (λ o. IsClient (elim o [ none ↦ c | some method ↦ keep_event f c ])) [
      | none ↦ i
      | some method ↦ keep_event-IsClient f c i
    ]

reply_or_event-IsClient :
    (f : NativeFrame) (c : LiveClient) → IsClient c → IsClient (reply_or_event f c)
unfolding reply_or_event
reply_or_event-IsClient f c i = elim (Option-cases f.id) [
  | inl e ↦
      subst IsClient
        (let w : (elim f.method [ none ↦ c | some method ↦ keep_event f c ]) ≡ reply_or_event f c =
            ground (arith, e) in
          w)
        (event-IsClient f c i)
  | inr (id, e) ↦ elim (Option-cases (get id c.pending)) [
    | inl n ↦
        subst IsClient
          (let w : (elim f.method [ none ↦ c | some method ↦ keep_event f c ])
                ≡ reply_or_event f c =
              ground (arith, e, n) in
            w)
          (event-IsClient f c i)
    | inr (expected, g) ↦
        subst IsClient
          (let w : settle_request id expected f c ≡ reply_or_event f c = ground (arith, e, g) in w)
          (settle_request-IsClient id expected f c g i)
  ]
]

frame-IsClient : (f : NativeFrame) (c : LiveClient) → IsClient c → IsClient (frame f c)
unfolding frame
frame-IsClient f c i =
    let other = reply_or_event-IsClient f c i in
    if_elim IsClient c.failed _ _ (λ e. i)
      (λ e.
        elim f.method
          as (λ o. IsClient (elim o [
            | none ↦ reply_or_event f c
            | some method ↦
                if method == "model/rerouted"
                then fail c
                else elim f.id [ none ↦ reply_or_event f c | some id ↦ call_back id c ]
          ])) [
            | none ↦ other
            | some method ↦
                if_elim IsClient (method == "model/rerouted") _ _ (λ m. fail-IsClient c i)
                  (λ m.
                    elim f.id
                      as (λ o.
                        IsClient
                          (elim o [ none ↦ reply_or_event f c | some id ↦ call_back id c ])) [
                            | none ↦ other
                            | some id ↦ call_back-IsClient id c i
                          ])
          ])

wait-IsClient : (test : NativeFrame → Bool) (c : LiveClient) → IsClient c → IsClient (wait test c)
unfolding wait
wait-IsClient test c i =
    if_elim IsClient (c.failed || c.closing) _ _ (λ e. i)
      (λ e.
        if_elim IsClient (any test c.events) _ _
          (λ k. record {
            once = i.once;
            few_events = i.few_events;
            few_callbacks = i.few_callbacks;
            ended = i.ended;
          })
          (λ k. record {
            once = i.once;
            few_events = i.few_events;
            few_callbacks = i.few_callbacks;
            ended = i.ended;
          }))

callback_done-IsClient :
    (ok : Bool) (id : ℕ) (c : LiveClient) → IsClient c → IsClient (callback_done ok id c)
unfolding callback_done
callback_done-IsClient ok id c i =
    if_elim IsClient (not ok) _ _ (λ e. fail-IsClient c i)
      (λ e.
        if_elim IsClient (c.failed || c.closing) _ _ (λ k. i)
          (λ k. record {
            once = i.once;
            few_events = i.few_events;
            few_callbacks = i.few_callbacks;
            ended = i.ended;
          }))

-- Whatever the client is given in any order, each request that it has sent is pending or settled and never settled
-- twice, no id that was not given out is either, at most 4096 events and 32 callbacks are kept, and a
-- client that has failed or is closing leaves no request pending, if this holds at the start.
pub client_calls-IsClient :
    (calls : List ClientCall) (c : LiveClient) → IsClient c → IsClient (client_calls calls c)
unfolding client_calls client_call close_client
client_calls-IsClient [] c i = i
client_calls-IsClient (requests method model ∷ calls) c i =
    client_calls-IsClient calls (request method model c) (request-IsClient method model c i)
client_calls-IsClient (hears f ∷ calls) c i =
    client_calls-IsClient calls (frame f c) (frame-IsClient f c i)
client_calls-IsClient (waits_for test ∷ calls) c i =
    client_calls-IsClient calls (wait test c) (wait-IsClient test c i)
client_calls-IsClient (handles ok id ∷ calls) c i =
    client_calls-IsClient calls (callback_done ok id c) (callback_done-IsClient ok id c i)
client_calls-IsClient (fails ∷ calls) c i = client_calls-IsClient calls (fail c) (fail-IsClient c i)
client_calls-IsClient (closes ∷ calls) c i =
    client_calls-IsClient calls (close_client c)
      (reject_all-IsClient "native probe closed" c c.failed true i)
