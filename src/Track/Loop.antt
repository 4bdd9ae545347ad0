-- ===== src/Track/Loop.antt =====
-- The reconnecting stream of apps/poc/public/client-track.js: streamLoop cut where it awaits, pumpFrames for
-- one chunk, and start, stop and poll. What TextDecoder makes of the bytes is given as a text.
pub mod Delay
use agentmeld.Prelude.{
  ℕ, suc, ◌+◌, ◌-◌, ◌*◌, ◌^◌, Bool, true, false, ◌&&◌, not, List, [], ◌∷◌, Option, none, some, ltb,
  leb, min, nat_beq, if◌then◌else◌,
}
use agentmeld.Prelude.Fields.{Field, missing, other, given}
use agentmeld.Sse.{SseParser, new_parser, Frame, push}
use agentmeld.Track.{Track, StreamStatus, idle, connecting, live, reconnecting}
use agentmeld.Track.Stream.{Message, dispatch_frames, on_resync}

abbrev pub stall_ms : ℕ
stall_ms = 45000

abbrev pub backoff_base_ms : ℕ
backoff_base_ms = 1000

abbrev pub backoff_max_ms : ℕ
backoff_max_ms = 30000

abbrev pub poll_interval_ms : ℕ
poll_interval_ms = 10000

-- The end of the loop, when the stream is switched off.
unfoldable pub end_loop : Track → Track
end_loop t = record t { stream_status = idle }

-- A turn of the loop up to its fetch, which sends the cursor.
unfoldable pub connect : ℕ → Track → Track
unfolding end_loop
connect now t =
    if t.stream_on
    then record t {
      stream_status = if nat_beq t.stream_attempt 0 then connecting else reconnecting;
      last_frame_at = now;
    }
    else end_loop t

-- The fetch is answered by 410: the cursor is too old, and the next turn follows at once.
unfoldable pub gone : ℕ → Field ℕ → Track → Track
unfolding on_resync connect
gone now current_seq t = connect now (record (on_resync current_seq t) { stream_attempt = 0 })

unfoldable pub opened : Track → Track
opened t = record t { stream_status = live; stream_attempt = 0 }

-- The delay before the next turn.
unfoldable pub delay_of : Track → ℕ
delay_of t = elim t.server_retry_ms [
  | some ms ↦ ms
  | none ↦ min backoff_max_ms (backoff_base_ms * 2 ^ min t.stream_attempt 5)
]

-- The connection is lost, or never came: the loop ends or sleeps, for the delay that comes with it.
unfoldable pub lost : Track → Track × Option ℕ
unfolding end_loop delay_of
lost t =
    let t' = record t { stream_attempt = t.stream_attempt + 1 } in
    if t.stream_on then (t', some (delay_of t')) else (end_loop t, none)

-- How long the sleep of that delay lasts: `wake` is when retryStreamNow or stop calls wakeStream, if they do.
unfoldable pub slept : ℕ → Option ℕ → ℕ
slept delay none = delay
slept delay (some at) = min at delay

-- The interval of streamLoop aborts a live connection that has been silent for too long.
unfoldable pub stalled : ℕ → Track → Bool
stalled now t =
    t.stream_on
    && (elim t.stream_status [
      | live ↦ true
      | idle ↦ false
      | connecting ↦ false
      | reconnecting ↦ false
    ])
    && ltb stall_ms (now - t.last_frame_at)

pub record Pumped : Type 0 where
  pub parser : SseParser
  pub track : Track

abbrev pub note_chunk : ℕ → SseParser → Track → Track
note_chunk now p t = record t {
  last_frame_at = if nat_beq p.lines_seen 0 then t.last_frame_at else now;
  server_retry_ms = elim p.retry_ms [ none ↦ t.server_retry_ms | some ms ↦ some ms ];
}

module _ (to_number : List ℕ → Option ℕ) (parse : List ℕ → Option Message) (on_delta : Bool) where
  -- One chunk of pumpFrames.
  unfoldable pub pump : ℕ → List ℕ → Pumped → Pumped
  unfolding push dispatch_frames
  pump now chunk c =
      let pushed = push to_number chunk c.parser in
      record {
        parser = pushed.parser;
        track =
            dispatch_frames parse on_delta now pushed.frames (note_chunk now pushed.parser c.track);
      }

  -- The chunks of a connection, each at its time; every connection has a new parser.
  unfoldable pub pump_all : List (ℕ × List ℕ) → Pumped → Pumped
  unfolding pump
  pump_all [] c = c
  pump_all ((now, chunk) ∷ cs) c = pump_all cs (pump now chunk c)

  -- A connection that opens, brings chunks and is lost, and the sleep after it.
  unfoldable pub connection : List (ℕ × List ℕ) → Option ℕ → Track → Track × Option ℕ
  unfolding pump_all opened lost slept
  connection cs wake t =
      let (u, delay) =
        lost (pump_all cs (record { parser = new_parser; track = opened t })).track in
      (u, elim delay [ none ↦ none | some ms ↦ some (slept ms wake) ])

-- start: the loop begins if it is not on.
unfoldable pub start : ℕ → Track → Track
unfolding connect
start now t =
    if t.stream_on then t else connect now (record t { stream_on = true; stream_attempt = 0 })

unfoldable pub stop : Track → Track
stop t = record t { stream_on = false; stream_status = idle }

-- poll, up to its requests: whether they are made.
unfoldable pub poll_due : Bool → ℕ → Track → Track × Bool
poll_due force now t =
    if not force && ltb (now - t.last_poll_at) poll_interval_ms
    then (t, false)
    else (record t { last_poll_at = now }, true)

-- The retry button shows after a sustained failure.
unfoldable pub shows_retry : Track → Bool
shows_retry t =
    t.stream_on
    && (elim t.stream_status [
      | live ↦ false
      | idle ↦ false
      | connecting ↦ true
      | reconnecting ↦ true
    ])
    && leb 2 t.stream_attempt
