-- ===== src/Track/Stream/Window.antt =====
-- The events that dispatchFrame of apps/poc/public/client-track.js handles, when the service delivers each
-- at least once.
use agentmeld.Prelude.{
  ℕ, zero, suc, ◌+◌, ◌-◌, ◌≤◌, Bool, false, List, [], ◌∷◌, ◌++◌, Option, some, contains, nat_eq,
  length, drop, ltb, if◌then◌else◌, ◌≡◌, refl, sym, ap, ◌∙◌, arith, length-append, length-drop,
  drop-drop, if_elim, eq_lem, nat_beq, string_eq,
}
use agentmeld.Prelude.Fields.{Field, missing, other, given}
use agentmeld.Sse.{Frame}
use agentmeld.Track.{Track}
use agentmeld.Track.Stream.Keep.{dispatch_frames_keep}
use agentmeld.Track.Stream.{
  Message, seen_cap, add_seen, queue_refresh, take_delta, handle_event, on_resync, take_event,
  on_hello, dispatch_frames,
}

unfoldable pub count_seq : ℕ → List ℕ → ℕ
count_seq s [] = 0
count_seq s (x ∷ xs) = let rest = count_seq s xs in if nat_beq x s then suc rest else rest

-- The last events.
abbrev pub last : ℕ → List ℕ → List ℕ
last n xs = drop (length xs - n) xs

-- The track remembers the last events that it handled, up to the cap, and among these no two have one
-- sequence number.
pub record IsWindow (t : Track) : Type 0 where
  pub remembers : t.seen_seq ≡ last seen_cap t.handled
  pub once : (s : ℕ) → count_seq s t.seen_seq ≤ 1

drop-append : (k : ℕ) (xs ys : List ℕ) → k ≤ length xs → drop k (xs ++ ys) ≡ drop k xs ++ ys
drop-append zero xs ys h = refl
drop-append (suc k) [] ys h = absurd (omega arith)
drop-append (suc k) (x ∷ xs) ys h = drop-append k xs ys (omega arith)

count_seq-append :
    (s x : ℕ) (xs : List ℕ)
    → count_seq s (xs ++ x ∷ []) ≡ count_seq s xs + (if nat_beq x s then 1 else 0)
unfolding count_seq
count_seq-append s x [] = ground arith
count_seq-append s x (y ∷ xs) = ground (arith, count_seq-append s x xs)

count_seq-contains : (s : ℕ) (xs : List ℕ) → contains s xs ≡ false → count_seq s xs ≡ 0
unfolding count_seq contains
count_seq-contains s [] h = refl
count_seq-contains s (x ∷ xs) h = ground (arith, count_seq-contains s xs)

count_seq-drop : (s : ℕ) (xs : List ℕ) → count_seq s (drop 1 xs) ≤ count_seq s xs
unfolding count_seq
count_seq-drop s [] = omega arith
count_seq-drop s (x ∷ xs) = ground arith

add_seen-once :
    (seq s : ℕ) (seen : List ℕ)
    → contains seq seen ≡ false
    → count_seq s seen ≤ 1
    → count_seq s (add_seen seq seen) ≤ 1
unfolding add_seen
add_seen-once seq s seen new once = ground (
  arith,
  count_seq-append s seq seen,
  count_seq-contains seq seen,
  count_seq-drop s (seen ++ seq ∷ []),
  eq_lem seq s,
)

add_seen-last :
    (seq : ℕ) (handled : List ℕ)
    → add_seen seq (last seen_cap handled) ≡ last seen_cap (handled ++ seq ∷ [])
unfolding add_seen
add_seen-last seq handled =
    if_elim (λ xs. xs ≡ last seen_cap (handled ++ seq ∷ []))
      (ltb seen_cap (length (drop k handled ++ seq ∷ []))) _ _
      (λ e.
        ap (drop 1) (sym (drop-append k handled (seq ∷ []) (omega arith)))
        ∙ drop-drop k 1 (handled ++ seq ∷ [])
        ∙ ap (λ n. drop n (handled ++ seq ∷ []))
            (let m : k + 1 ≡ length (handled ++ seq ∷ []) - seen_cap =
                ground (arith, size, grown) in
              m))
      (λ e.
        sym (drop-append k handled (seq ∷ []) (omega arith))
        ∙ ap (λ n. drop n (handled ++ seq ∷ []))
            (let m : k ≡ length (handled ++ seq ∷ []) - seen_cap = ground (arith, size, grown) in
              m))
  where
    k : ℕ
    k = length handled - seen_cap

    grown : length (handled ++ seq ∷ []) ≡ length handled + 1
    grown = length-append handled (seq ∷ [])

    size : length (drop k handled ++ seq ∷ []) ≡ length handled - k + 1
    size = omega (arith, length-append (drop k handled) (seq ∷ []), length-drop k handled)

-- What handleEvent and onResync leave alone.
record SameSeen (t u : Track) : Type 0 where
  seen : u.seen_seq ≡ t.seen_seq
  log : u.handled ≡ t.handled

handle_event-SameSeen :
    (on_delta : Bool) (now : ℕ) (m : Message) (t : Track)
    → SameSeen t (handle_event on_delta now m t)
unfolding handle_event take_delta queue_refresh
handle_event-SameSeen on_delta now m t = ground arith

SameSeen-IsWindow : (t u : Track) → SameSeen t u → IsWindow t → IsWindow u
SameSeen-IsWindow t u s i = ground (arith, i.once)

take_event-IsWindow :
    (on_delta : Bool) (now seq : ℕ) (m : Message) (t : Track)
    → IsWindow t
    → IsWindow (take_event on_delta now seq m t)
unfolding take_event
take_event-IsWindow on_delta now seq m t i =
    if_elim IsWindow (contains seq t.seen_seq) _ _ (λ e. i)
      (λ e. SameSeen-IsWindow taken _ (handle_event-SameSeen on_delta now m taken) (fresh e))
  where
    taken : Track
    taken = record t {
      seen_seq = add_seen seq t.seen_seq;
      cursor = some seq;
      handled = t.handled ++ seq ∷ [];
    }

    fresh : contains seq t.seen_seq ≡ false → IsWindow taken
    fresh e = record {
      remembers = ap (add_seen seq) i.remembers ∙ add_seen-last seq t.handled;
      once = λ s. add_seen-once seq s t.seen_seq e (i.once s);
    }

on_resync-IsWindow : (f : Field ℕ) (t : Track) → IsWindow t → IsWindow (on_resync f t)
unfolding on_resync
on_resync-IsWindow (given seq) t i = record { remembers = i.remembers; once = i.once }
on_resync-IsWindow missing t i = record { remembers = i.remembers; once = i.once }
on_resync-IsWindow other t i = record { remembers = i.remembers; once = i.once }

on_hello-IsWindow : (now : ℕ) (f : Field ℕ) (t : Track) → IsWindow t → IsWindow (on_hello now f t)
unfolding on_hello
on_hello-IsWindow now (given time) t i = record { remembers = i.remembers; once = i.once }
on_hello-IsWindow now missing t i = i
on_hello-IsWindow now other t i = i

module _ (parse : List ℕ → Option Message) (on_delta : Bool) where
  -- Whatever frames arrive, in whatever order and as often as they do, the track remembers the last 2000
  -- events that it handled and no two of these have one sequence number: an event that is delivered
  -- again is handled again only if 2000 others came between.
  pub dispatch_frames-IsWindow :
      (now : ℕ) (fs : List Frame) (t : Track)
      → IsWindow t
      → IsWindow (dispatch_frames parse on_delta now fs t)
  dispatch_frames-IsWindow =
      dispatch_frames_keep parse on_delta IsWindow on_hello-IsWindow on_resync-IsWindow
        (take_event-IsWindow on_delta)
