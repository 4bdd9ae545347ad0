-- ===== src/Track/Stream/Keep.antt =====
-- A property of the track that the parts of dispatchFrame in apps/poc/public/client-track.js keep is kept by
-- all frames.
use agentmeld.Prelude.{
  ℕ, Bool, List, [], ◌∷◌, Option, none, some, if_elim, list_beq, string_eq, nat_eq, ◌==◌,
}
use agentmeld.Prelude.Fields.{Field, missing, other, given}
use agentmeld.Prelude.Text.{codes}
use agentmeld.Sse.{Frame}
use agentmeld.Track.{Track}
use agentmeld.Track.Stream.{
  Message, on_resync, take_event, on_hello, on_event, dispatch_message, dispatch_frame,
  dispatch_frames, join_lines,
}

module _ {ℓ} (parse : List ℕ → Option Message) (on_delta : Bool) (P : Track → Type ℓ)
    (hello : (now : ℕ) (f : Field ℕ) (t : Track) → P t → P (on_hello now f t))
    (resync : (f : Field ℕ) (t : Track) → P t → P (on_resync f t))
    (event : (now seq : ℕ) (m : Message) (t : Track)
      → P t
      → P (take_event on_delta now seq m t)) where
  on_event_keeps : (now : ℕ) (m : Message) (t : Track) → P t → P (on_event on_delta now m t)
  unfolding on_event
  on_event_keeps now m t i = by_seq m.seq
    where
      by_seq :
          (f : Field ℕ)
          → P (elim f as (λ _. Track) [
            | given seq ↦ take_event on_delta now seq m t
            | missing ↦ t
            | other ↦ t
          ])
      by_seq (given seq) = event now seq m t i
      by_seq missing = i
      by_seq other = i

  dispatch_frame_keeps :
      (now : ℕ) (f : Frame) (t : Track) → P t → P (dispatch_frame parse on_delta now f t)
  unfolding dispatch_frame dispatch_message
  dispatch_frame_keeps now f t i = read (parse (join_lines f.data_lines))
    where
      read :
          (o : Option Message)
          → P (elim o as (λ _. Track) [
            | none ↦ t
            | some m ↦ dispatch_message parse on_delta now f.event m t
          ])
      read none = i
      read (some m) =
          if_elim P (list_beq f.event (codes "stream.hello")) _ _
            (λ e. hello now m.server_time_ms t i)
            (λ e.
              if_elim P (list_beq f.event (codes "control")) _ _
                (λ c.
                  if_elim P (m.message_type == "stream.resync_required") _ _
                    (λ r. resync m.current_seq t i) (λ r. i))
                (λ c. on_event_keeps now m t i))

  pub dispatch_frames_keep :
      (now : ℕ) (fs : List Frame) (t : Track) → P t → P (dispatch_frames parse on_delta now fs t)
  unfolding dispatch_frames
  dispatch_frames_keep now [] t i = i
  dispatch_frames_keep now (f ∷ fs) t i =
      dispatch_frames_keep now fs (dispatch_frame parse on_delta now f t)
        (dispatch_frame_keeps now f t i)
