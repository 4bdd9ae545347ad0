-- ===== src/Browser/Clicked.antt =====
-- The clicks of an agent and of a human in experiments/browser-control.mjs, and the moves that end in one.
use agentmeld.Prelude.{
  ℕ, suc, ◌<◌, Bool, true, false, ◌&&◌, ◌||◌, List, [], ◌∷◌, ◌++◌, ◌≡◌, arith, any, nat_beq, eq_lem,
  nat_eq,
}
use agentmeld.Browser.{
  Mode, same_mode, Actor, by_agent, by_human, Click, Operation, BrowserControl, dispatch,
}

unfoldable pub is_agent : Actor → Bool
is_agent by_agent = true
is_agent by_human = false

unfoldable pub is_human : Actor → Bool
is_human by_agent = false
is_human by_human = true

-- The actor clicked under the generation.
unfoldable pub clicked : (Actor → Bool) → ℕ → List Click → Bool
clicked who g ks = any (λ (k : Click). who k.actor && nat_beq k.generation g) ks

-- No generation has clicks of both; none is ahead; and the clicks of the present generation are those of
-- the mode's actor.
pub record IsFenced (c : BrowserControl) : Type 0 where
  pub exclusive : (g : ℕ) → (clicked is_agent g c.clicks && clicked is_human g c.clicks) ≡ false
  pub none_ahead_a : (g : ℕ) → c.generation < g → clicked is_agent g c.clicks ≡ false
  pub none_ahead_h : (g : ℕ) → c.generation < g → clicked is_human g c.clicks ≡ false
  pub agent_now : clicked is_agent c.generation c.clicks ≡ true → same_mode c.mode Mode.agent ≡ true
  pub human_now : clicked is_human c.generation c.clicks ≡ true → same_mode c.mode Mode.human ≡ true

clicked-append :
    (who : Actor → Bool) (g : ℕ) (ks : List Click) (k : Click)
    → clicked who g (ks ++ k ∷ []) ≡ (clicked who g ks || (who k.actor && nat_beq k.generation g))
unfolding clicked any
clicked-append who g [] k = ground arith
clicked-append who g (j ∷ ks) k = ground (arith, clicked-append who g ks k)

-- A change of mode with a new generation, and of the queue.
pub move-IsFenced :
    (m : Mode) (w : List Operation) (b : Bool) (c : BrowserControl)
    → IsFenced c
    → IsFenced (record c { mode = m; generation = suc c.generation; waiting = w; started = b })
move-IsFenced m w b c i = record {
  exclusive = i.exclusive;
  none_ahead_a = λ g h. i.none_ahead_a g (omega arith);
  none_ahead_h = λ g h. i.none_ahead_h g (omega arith);
  agent_now = λ h. absurd (ground (arith, i.none_ahead_a (suc c.generation)));
  human_now = λ h. absurd (ground (arith, i.none_ahead_h (suc c.generation)));
}

pub queue-IsFenced :
    (w : List Operation) (b : Bool) (c : BrowserControl)
    → IsFenced c
    → IsFenced (record c { waiting = w; started = b })
queue-IsFenced w b c i = record {
  exclusive = i.exclusive;
  none_ahead_a = i.none_ahead_a;
  none_ahead_h = i.none_ahead_h;
  agent_now = i.agent_now;
  human_now = i.human_now;
}

-- From a mode in which nobody clicks, the mode may change under the same generation.
pub settle-IsFenced :
    (m n : Mode) (w : List Operation) (c : BrowserControl)
    → same_mode c.mode n ≡ true
    → same_mode n Mode.agent ≡ false
    → same_mode n Mode.human ≡ false
    → IsFenced c
    → IsFenced (record c { mode = m; waiting = w; started = false })
unfolding same_mode
settle-IsFenced m n w c e a h i = record {
  exclusive = i.exclusive;
  none_ahead_a = i.none_ahead_a;
  none_ahead_h = i.none_ahead_h;
  agent_now = λ f. absurd (ground (arith, i.agent_now f));
  human_now = λ f. absurd (ground (arith, i.human_now f));
}

pub agent-IsFenced :
    (c : BrowserControl)
    → same_mode c.mode Mode.agent ≡ true
    → IsFenced c
    → IsFenced (dispatch by_agent c)
unfolding dispatch is_agent is_human same_mode
agent-IsFenced c e i = record {
  exclusive = λ g. ground (
    arith,
    clicked-append is_agent g c.clicks k,
    clicked-append is_human g c.clicks k,
    i.exclusive g,
    none_other,
    eq_lem c.generation g,
  );
  none_ahead_a = λ g h. ground (arith, clicked-append is_agent g c.clicks k, i.none_ahead_a g h);
  none_ahead_h = λ g h. ground (arith, clicked-append is_human g c.clicks k, i.none_ahead_h g h);
  agent_now = λ h. e;
  human_now = λ h. ground (arith, clicked-append is_human c.generation c.clicks k, none_other);
}
  where
    k : Click
    k = record { actor = by_agent; generation = c.generation }

    none_other : clicked is_human c.generation c.clicks ≡ false
    none_other = ground (arith, i.human_now)

pub human-IsFenced :
    (c : BrowserControl)
    → same_mode c.mode Mode.human ≡ true
    → IsFenced c
    → IsFenced (dispatch by_human c)
unfolding dispatch is_agent is_human same_mode
human-IsFenced c e i = record {
  exclusive = λ g. ground (
    arith,
    clicked-append is_agent g c.clicks k,
    clicked-append is_human g c.clicks k,
    i.exclusive g,
    none_other,
    eq_lem c.generation g,
  );
  none_ahead_a = λ g h. ground (arith, clicked-append is_agent g c.clicks k, i.none_ahead_a g h);
  none_ahead_h = λ g h. ground (arith, clicked-append is_human g c.clicks k, i.none_ahead_h g h);
  human_now = λ h. e;
  agent_now = λ h. ground (arith, clicked-append is_agent c.generation c.clicks k, none_other);
}
  where
    k : Click
    k = record { actor = by_human; generation = c.generation }

    none_other : clicked is_agent c.generation c.clicks ≡ false
    none_other = ground (arith, i.agent_now)
