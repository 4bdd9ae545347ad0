-- ===== src/Track/Texts.antt =====
-- The texts of apps/poc/public/client-track.js that are computed from the state. A text with numbers in it is
-- the case that the code chooses, with the numbers.
use agentmeld.Prelude.{
  ℕ, ◌+◌, ◌-◌, ◌*◌, ◌/◌, ◌%◌, List, [], ◌∷◌, ◌++◌, leb, ltb, nat_beq, length, take, drop,
  if◌then◌else◌, ◌≡◌, arith, none, some,
}
use agentmeld.Track.{Track, Approval}

-- The texts of countdownText.
pub data Countdown : Type 0 where
  expired : Countdown
  in_seconds : ℕ → Countdown
  in_minutes : ℕ → ℕ → Countdown

unfoldable pub countdown : ℕ → Approval → Countdown
countdown server_now a =
    let s = (a.expires_at_ms - server_now) / 1000 in
    if leb a.expires_at_ms server_now
    then expired
    else if ltb s 60
    then in_seconds s
    else in_minutes (s / 60) (s % 60)

-- serverNow: the time of this device with the offset of the last hello.
unfoldable pub server_now : ℕ → Track → ℕ
server_now now t = elim t.clock [ none ↦ now | some (server, local) ↦ now + server - local ]

-- shortDigest, of a digest that is a text; 8212 and 8230 are the dash and the ellipsis.
unfoldable pub short_digest : List ℕ → List ℕ
short_digest d = if ltb (length d) 16 then 8212 ∷ [] else take 8 d ++ 8230 ∷ drop (length d - 4) d

-- The texts of relUpdated.
pub data Updated : Type 0 where
  never just_now : Updated
  seconds_ago minutes_ago hours_ago : ℕ → Updated

unfoldable pub rel_updated : ℕ → Track → Updated
rel_updated now t =
    let s = (now - t.last_event_at + 500) / 1000 in
    if nat_beq t.last_event_at 0
    then never
    else if ltb s 10
    then just_now
    else if ltb s 60
    then seconds_ago s
    else if ltb (s / 60) 60
    then minutes_ago (s / 60)
    else hours_ago (s / 60 / 60)

-- The whole seconds that a countdown shows.
abbrev pub seconds_of : Countdown → ℕ
seconds_of expired = 0
seconds_of (in_seconds s) = s
seconds_of (in_minutes m s) = m * 60 + s

-- The countdown shows the whole seconds that are left, with less than a minute's seconds beside minutes.
pub countdown-seconds :
    (now : ℕ) (a : Approval) → seconds_of (countdown now a) ≡ (a.expires_at_ms - now) / 1000
unfolding countdown
countdown-seconds now a = ground arith
