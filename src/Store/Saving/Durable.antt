-- ===== src/Store/Saving/Durable.antt =====
-- What state.json holds, against the saves of apps/poc/conversations.mjs that were called and settled.
use agentmeld.Prelude.{
  Bool, true, false, not, List, [], ◌∷◌, ◌++◌, Option, ◌≡◌, refl, sym, ap, ◌∙◌, arith, append_assoc,
  append-nil, if_elim, if◌then◌else◌,
}
use agentmeld.Store.Saving.{
  absent, torn, whole, Saver, save, settle_save, tmp_written, renamed_disk, tmp_renamed, SaverEvent,
  saves, writes, renames, saver_event, saver_events, new_saver,
}
use agentmeld.Store.Saving.Settled.{
  last_saved, any_failed, taken, snapshots, snapshots-append, saver_events-from,
}

module _ {ℓ} {A : Type ℓ} where
  -- The snapshots of a saver, settled and queued.
  abbrev held : Saver A → List A
  held s = snapshots s.settled ++ s.queue

  settle_save-held :
      (a : A) (ok : Bool) (rest : List A) (s : Saver A)
      → s.queue ≡ a ∷ rest
      → held (settle_save a ok rest s) ≡ held s
  settle_save-held a ok rest s e =
      ap (λ l. l ++ rest) (snapshots-append s.settled a ok)
      ∙ append_assoc (snapshots s.settled) (a ∷ []) rest
      ∙ ap (λ l. snapshots s.settled ++ l) (sym e)

  writes-held : (ok : Bool) (s : Saver A) → held (saver_event (writes ok) s) ≡ held s
  unfolding saver_event tmp_written
  writes-held ok s =
      elim s.queue
          as (λ q.
            s.queue ≡ q
            → held (elim q [
              | [] ↦ s
              | a ∷ rest ↦
                  if s.renaming
                  then s
                  else if ok
                  then record s { tmp = whole a; renaming = true }
                  else settle_save a false rest (record s { tmp = torn })
            ])
              ≡ held s) [
                | [] ↦ λ e. refl
                | a ∷ rest ↦ λ e.
                    if_elim (λ (t : Saver A). held t ≡ held s) s.renaming _ _ (λ r. refl)
                      (λ r.
                        if_elim (λ (t : Saver A). held t ≡ held s) ok _ _ (λ k. refl)
                          (λ k. settle_save-held a false rest (record s { tmp = torn }) e))
              ]
        refl

  renames-held : (ok : Bool) (s : Saver A) → held (saver_event (renames ok) s) ≡ held s
  unfolding saver_event tmp_renamed
  renames-held ok s =
      elim s.queue
          as (λ q.
            s.queue ≡ q
            → held (elim q [
              | [] ↦ s
              | a ∷ rest ↦
                  if not s.renaming
                  then s
                  else if ok
                  then settle_save a true rest
                      (record s { disk = renamed_disk s.tmp s.disk; tmp = absent })
                  else settle_save a false rest s
            ])
              ≡ held s) [
                | [] ↦ λ e. refl
                | a ∷ rest ↦ λ e.
                    if_elim (λ (t : Saver A). held t ≡ held s) (not s.renaming) _ _ (λ r. refl)
                      (λ r.
                        if_elim (λ (t : Saver A). held t ≡ held s) ok _ _
                          (λ k.
                            settle_save-held a true rest
                              (record s { disk = renamed_disk s.tmp s.disk; tmp = absent }) e)
                          (λ k. settle_save-held a false rest s e))
              ]
        refl

  save_held :
      (a : A) (s : Saver A) (more : List A)
      → held (saver_event (saves a) s) ++ more ≡ held s ++ (if s.failed then more else a ∷ more)
  unfolding saver_event save
  save_held a s more =
      elim s.failed
        as (λ b.
          held (
              if b
              then record s { refused = true }
              else record s { queue = s.queue ++ a ∷ []; refused = false })
            ++ more
          ≡ held s ++ (if b then more else a ∷ more)) [
            | true ↦ refl
            | false ↦
                ap (λ l. l ++ more) (sym (append_assoc (snapshots s.settled) s.queue (a ∷ [])))
                ∙ append_assoc (held s) (a ∷ []) more
          ]

  held-taken :
      (es : List (SaverEvent A)) (s : Saver A) → held (saver_events es s) ≡ held s ++ taken es s
  unfolding saver_events taken
  held-taken [] s = sym (append-nil (held s))
  held-taken (saves a ∷ es) s = held-taken es (saver_event (saves a) s) ∙ saved
    where
      saved :
          held (saver_event (saves a) s) ++ taken es (saver_event (saves a) s)
          ≡ held s
            ++ (if s.failed
                then taken es (saver_event (saves a) s)
                else a ∷ taken es (saver_event (saves a) s))
      saved = save_held a s (taken es (saver_event (saves a) s))
  held-taken (writes ok ∷ es) s =
      held-taken es (saver_event (writes ok) s)
      ∙ ap (λ l. l ++ taken es (saver_event (writes ok) s)) (writes-held ok s)
  held-taken (renames ok ∷ es) s =
      held-taken es (saver_event (renames ok) s)
      ∙ ap (λ l. l ++ taken es (saver_event (renames ok) s)) (renames-held ok s)

  -- Whenever writes, renames and saves come and whichever fail: state.json holds exactly the snapshot of the last save
  -- that succeeded, or what it held before, never a part of a text; the saves settle in the order in which
  -- they were called, and those that have not are still queued in it; and the latch is set exactly when
  -- one has failed, after which no call is taken.
  pub saver_events-durable :
      (es : List (SaverEvent A)) (disk : Option A)
      → let s = saver_events es (new_saver disk) in
        (s.disk ≡ last_saved disk s.settled)
        × (snapshots s.settled ++ s.queue ≡ taken es (new_saver disk))
        × (s.failed ≡ any_failed s.settled)
  unfolding last_saved any_failed snapshots
  saver_events-durable es disk =
      let i = saver_events-from disk es (new_saver disk) (record {
        durable = refl;
        latched = refl;
        ready = λ a rest r q. absurd (ground (arith, r));
        idle = λ q. refl;
      }) in
      (i.durable, held-taken es (new_saver disk), i.latched)
