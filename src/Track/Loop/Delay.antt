-- ===== src/Track/Loop/Delay.antt =====
-- How long apps/poc/public/client-track.js waits before it connects again.
use agentmeld.Prelude.{
  ℕ, zero, suc, ◌+◌, ◌*◌, ◌^◌, ◌≤◌, Bool, List, [], ◌∷◌, Option, none, some, min, ◌≡◌, refl, arith,
  string_eq, nat_eq, ◌⊎◌, inl, inr, Bool-cases, leb,
}
use agentmeld.Prelude.Fields.{Field}
use agentmeld.Sse.{SseParser, new_parser, push, push_all}
use agentmeld.Sse.Retry.{IsClamped, push_all-IsClamped}
use agentmeld.Track.{Track}
use agentmeld.Track.Stream.Keep.{dispatch_frames_keep}
use agentmeld.Track.Stream.{
  Message, queue_refresh, take_delta, handle_event, on_resync, take_event, on_hello,
}
use agentmeld.Track.Loop.{
  opened, delay_of, lost, slept, Pumped, note_chunk, pump, pump_all, connection, backoff_max_ms,
  backoff_base_ms,
}

-- The powers of the backoff.
power : (n : ℕ) → n ≤ 5 → (1 ≤ 2 ^ n) × (2 ^ n ≤ 32)
power zero h = omega arith
power (suc zero) h = omega arith
power (suc (suc zero)) h = omega arith
power (suc (suc (suc zero))) h = omega arith
power (suc (suc (suc (suc zero)))) h = omega arith
power (suc (suc (suc (suc (suc zero))))) h = omega arith
power (suc (suc (suc (suc (suc (suc n)))))) h = absurd (omega arith)

pub delay_of-bounds :
    (t : Track) → IsClamped t.server_retry_ms → (500 ≤ delay_of t) × (delay_of t ≤ 30000)
unfolding delay_of IsClamped
delay_of-bounds t c = by_hint t.server_retry_ms c
  where
    by_hint :
        (o : Option ℕ)
        → IsClamped o
        → (500 ≤ elim o as (λ _. ℕ) [
          | some ms ↦ ms
          | none ↦ min backoff_max_ms (backoff_base_ms * 2 ^ min t.stream_attempt 5)
        ])
          × (elim o as (λ _. ℕ) [
            | some ms ↦ ms
            | none ↦ min backoff_max_ms (backoff_base_ms * 2 ^ min t.stream_attempt 5)
          ]
              ≤ 30000)
    by_hint none c = (omega (arith, power (min t.stream_attempt 5) (omega arith)), omega arith)
    by_hint (some ms) c = c ms refl

-- The server's delay, if there is one, is clamped.
abbrev KeepsClamp : Track → Type 0
KeepsClamp t = IsClamped t.server_retry_ms

take_event-KeepsClamp :
    (on_delta : Bool) (now seq : ℕ) (m : Message) (t : Track)
    → KeepsClamp t
    → KeepsClamp (take_event on_delta now seq m t)
unfolding take_event handle_event take_delta queue_refresh
take_event-KeepsClamp on_delta now seq m t c = ground arith

on_hello-KeepsClamp :
    (now : ℕ) (f : Field ℕ) (t : Track) → KeepsClamp t → KeepsClamp (on_hello now f t)
unfolding on_hello
on_hello-KeepsClamp now f t c = ground arith

on_resync-KeepsClamp : (f : Field ℕ) (t : Track) → KeepsClamp t → KeepsClamp (on_resync f t)
unfolding on_resync
on_resync-KeepsClamp f t c = ground arith

note_chunk-KeepsClamp :
    (now : ℕ) (p : SseParser) (t : Track)
    → IsClamped p.retry_ms
    → KeepsClamp t
    → KeepsClamp (note_chunk now p t)
note_chunk-KeepsClamp now p t h c = noted p.retry_ms h
  where
    noted :
        (o : Option ℕ)
        → IsClamped o
        → IsClamped (elim o as (λ _. Option ℕ) [ none ↦ t.server_retry_ms | some ms ↦ some ms ])
    noted none h = c
    noted (some ms) h = h

no_hint : IsClamped none
unfolding IsClamped
no_hint n e = cc

slept-bounds :
    (delay : ℕ) (wake : Option ℕ) (ms : ℕ)
    → (500 ≤ delay) × (delay ≤ 30000)
    → slept delay wake ≡ ms
    → ((500 ≤ ms) ⊎ (wake ≡ some ms)) × (ms ≤ 30000)
unfolding slept
slept-bounds delay none ms b e = (inl (omega (arith, b, e)), omega (arith, b, e))
slept-bounds delay (some at) ms b e = elim (Bool-cases (leb delay at)) [
  | inl late ↦ (inl (ground (arith, b, e, late)), ground (arith, b, e, late))
  | inr early ↦ (inr (ground (arith, e, early)), ground (arith, b, e, early))
]

module _ (to_number : List ℕ → Option ℕ) (parse : List ℕ → Option Message) (on_delta : Bool) where
  pump_all-KeepsClamp :
      (cs : List (ℕ × List ℕ)) (c : Pumped)
      → IsClamped c.parser.retry_ms
      → KeepsClamp c.track
      → KeepsClamp (pump_all to_number parse on_delta cs c).track
  unfolding pump_all pump push_all
  pump_all-KeepsClamp [] c h k = k
  pump_all-KeepsClamp ((now, chunk) ∷ cs) c h k =
      pump_all-KeepsClamp cs (pump to_number parse on_delta now chunk c) pushed (
        dispatch_frames_keep parse on_delta KeepsClamp on_hello-KeepsClamp on_resync-KeepsClamp
          (take_event-KeepsClamp on_delta) now (push to_number chunk c.parser).frames
          (note_chunk now (push to_number chunk c.parser).parser c.track)
          (note_chunk-KeepsClamp now (push to_number chunk c.parser).parser c.track pushed k))
    where
      pushed : IsClamped (push to_number chunk c.parser).parser.retry_ms
      pushed = push_all-IsClamped to_number (chunk ∷ []) c.parser h

  -- However a connection goes, if the stream is on when it is lost, the loop sleeps at most 30000 milliseconds, and at
  -- least 500 unless it is woken before by `Retry now` or stop, when it sleeps exactly until then, whatever
  -- the server asked for on the connection, if the delay that is held was none or within these bounds
  -- before.
  pub connection-delay :
      (cs : List (ℕ × List ℕ)) (wake : Option ℕ) (t : Track) (ms : ℕ)
      → IsClamped t.server_retry_ms
      → (connection to_number parse on_delta cs wake t).1 ≡ some ms
      → ((500 ≤ ms) ⊎ (wake ≡ some ms)) × (ms ≤ 30000)
  unfolding connection lost opened
  connection-delay cs wake t ms c e =
      waited (pump_all to_number parse on_delta cs start).track after e
    where
      start : Pumped
      start = record { parser = new_parser; track = opened t }

      after : KeepsClamp (pump_all to_number parse on_delta cs start).track
      after = pump_all-KeepsClamp cs start no_hint c

      waited :
          (u : Track)
          → KeepsClamp u
          → (elim (lost u).1 as (λ _. Option ℕ) [ none ↦ none | some d ↦ some (slept d wake) ])
            ≡ some ms
          → ((500 ≤ ms) ⊎ (wake ≡ some ms)) × (ms ≤ 30000)
      waited u k e =
          let u' = record u { stream_attempt = u.stream_attempt + 1 } in
          slept-bounds (delay_of u') wake ms (delay_of-bounds u' k) (ground (arith, e))
