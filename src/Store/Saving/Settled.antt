-- ===== src/Store/Saving/Settled.antt =====
-- The saves of apps/poc/conversations.mjs that have settled, and what state.json and the latch are then.
use agentmeld.Prelude.{
  Bool, true, false, not, ◌||◌, List, [], ◌∷◌, ◌++◌, Option, some, ◌≡◌, refl, sym, ap, ◌∙◌, arith,
  if_elim, if◌then◌else◌,
}
use agentmeld.Store.Saving.{
  Temporary, absent, torn, whole, Saver, save, settle_save, tmp_written, renamed_disk, tmp_renamed,
  SaverEvent, saves, writes, renames, saver_event, saver_events,
}

module _ {ℓ} {A : Type ℓ} where
  -- The file that settled saves leave: the last that succeeded, or the file from before.
  unfoldable pub last_saved : Option A → List (A × Bool) → Option A
  last_saved disk [] = disk
  last_saved disk ((a, ok) ∷ done) = last_saved (if ok then some a else disk) done

  unfoldable pub any_failed : List (A × Bool) → Bool
  any_failed [] = false
  any_failed ((a, ok) ∷ done) = not ok || any_failed done

  -- The snapshots that the chain took, from events and the latch as they find it.
  unfoldable pub taken : List (SaverEvent A) → Saver A → List A
  unfolding saver_event
  taken [] s = []
  taken (saves a ∷ es) s =
      let more = taken es (saver_event (saves a) s) in if s.failed then more else a ∷ more
  taken (writes ok ∷ es) s = taken es (saver_event (writes ok) s)
  taken (renames ok ∷ es) s = taken es (saver_event (renames ok) s)

  unfoldable pub snapshots : List (A × Bool) → List A
  snapshots [] = []
  snapshots ((a, ok) ∷ done) = a ∷ snapshots done

  last_saved-append :
      (disk : Option A) (xs : List (A × Bool)) (a : A) (ok : Bool)
      → last_saved disk (xs ++ (a, ok) ∷ []) ≡ (if ok then some a else last_saved disk xs)
  unfolding last_saved
  last_saved-append disk [] a ok = refl
  last_saved-append disk ((b, was) ∷ xs) a ok =
      last_saved-append (if was then some b else disk) xs a ok

  any_failed-append :
      (xs : List (A × Bool)) (a : A) (ok : Bool)
      → any_failed (xs ++ (a, ok) ∷ []) ≡ (any_failed xs || not ok)
  unfolding any_failed
  any_failed-append [] a ok = ground arith
  any_failed-append ((b, was) ∷ xs) a ok = ground (arith, any_failed-append xs a ok)

  pub snapshots-append :
      (xs : List (A × Bool)) (a : A) (ok : Bool)
      → snapshots (xs ++ (a, ok) ∷ []) ≡ snapshots xs ++ a ∷ []
  unfolding snapshots
  snapshots-append [] a ok = refl
  snapshots-append ((b, was) ∷ xs) a ok = ap (λ l. b ∷ l) (snapshots-append xs a ok)

  -- A saver over the file `disk`: the file is that of its settled saves, its latch is set by a failure, and
  -- state.tmp holds the snapshot that is to be renamed.
  pub record IsSaver (disk : Option A) (s : Saver A) : Type ℓ where
    pub durable : s.disk ≡ last_saved disk s.settled
    pub latched : s.failed ≡ any_failed s.settled
    pub ready : (a : A) (rest : List A) → s.renaming ≡ true → s.queue ≡ a ∷ rest → s.tmp ≡ whole a
    pub idle : s.queue ≡ [] → s.renaming ≡ false

  settle_save-IsSaver :
      (disk : Option A) (a : A) (ok : Bool) (rest : List A) (s : Saver A)
      → s.disk ≡ (if ok then some a else last_saved disk s.settled)
      → s.failed ≡ any_failed s.settled
      → IsSaver disk (settle_save a ok rest s)
  settle_save-IsSaver disk a ok rest s d f = record {
    durable = d ∙ sym (last_saved-append disk s.settled a ok);
    latched = ground (arith, f, any_failed-append s.settled a ok);
    ready = λ b more r q. absurd (ground (arith, r));
    idle = λ q. refl;
  }

  saver_event-IsSaver :
      (disk : Option A) (e : SaverEvent A) (s : Saver A)
      → IsSaver disk s
      → IsSaver disk (saver_event e s)
  unfolding saver_event save tmp_written tmp_renamed
  saver_event-IsSaver disk (saves a) s i =
      if_elim (IsSaver disk) s.failed _ _
        (λ e. record { durable = i.durable; latched = i.latched; ready = i.ready; idle = i.idle })
        (λ e. record {
          durable = i.durable;
          latched = i.latched;
          ready = λ b more r q. queued b more s.queue refl r q;
          idle = λ q. absurd (not_nil s.queue q);
        })
    where
      not_nil : (q : List A) → q ++ a ∷ [] ≡ [] → ⊥
      not_nil [] e = ground (arith, e)
      not_nil (b ∷ q) e = ground (arith, e)

      queued :
          (b : A) (more q : List A)
          → s.queue ≡ q
          → s.renaming ≡ true
          → q ++ a ∷ [] ≡ b ∷ more
          → s.tmp ≡ whole b
      queued b more [] n r e = absurd (ground (arith, i.idle n, r))
      queued b more (c ∷ cs) n r e = i.ready c cs r n ∙ ap whole (cc)
  saver_event-IsSaver disk (writes ok) s i =
      elim s.queue
          as (λ q.
            s.queue ≡ q
            → IsSaver disk (elim q [
              | [] ↦ s
              | a ∷ rest ↦
                  if s.renaming
                  then s
                  else if ok
                  then record s { tmp = whole a; renaming = true }
                  else settle_save a false rest (record s { tmp = torn })
            ])) [
              | [] ↦ λ e. i
              | a ∷ rest ↦ λ e.
                  if_elim (IsSaver disk) s.renaming _ _ (λ r. i)
                    (λ r.
                      if_elim (IsSaver disk) ok _ _
                        (λ k. record {
                          durable = i.durable;
                          latched = i.latched;
                          ready = λ b more t q. ground (arith, e, q);
                          idle = λ q. absurd (ground (arith, e, q));
                        })
                        (λ k.
                          settle_save-IsSaver disk a false rest (record s { tmp = torn }) i.durable
                            i.latched))
            ]
        refl
  saver_event-IsSaver disk (renames ok) s i =
      elim s.queue
          as (λ q.
            s.queue ≡ q
            → IsSaver disk (elim q [
              | [] ↦ s
              | a ∷ rest ↦
                  if not s.renaming
                  then s
                  else if ok
                  then settle_save a true rest
                      (record s { disk = renamed_disk s.tmp s.disk; tmp = absent })
                  else settle_save a false rest s
            ])) [
              | [] ↦ λ e. i
              | a ∷ rest ↦ λ e.
                  if_elim (IsSaver disk) (not s.renaming) _ _ (λ r. i)
                    (λ r.
                      let t = i.ready a rest (ground (arith, r)) e in
                      if_elim (IsSaver disk) ok _ _
                        (λ k.
                          settle_save-IsSaver disk a true rest
                            (record s { disk = renamed_disk s.tmp s.disk; tmp = absent })
                            (ap (λ (m : Temporary A). renamed_disk m s.disk) t) i.latched)
                        (λ k. settle_save-IsSaver disk a false rest s i.durable i.latched))
            ]
        refl

  pub saver_events-from :
      (disk : Option A) (es : List (SaverEvent A)) (s : Saver A)
      → IsSaver disk s
      → IsSaver disk (saver_events es s)
  unfolding saver_events
  saver_events-from disk [] s i = i
  saver_events-from disk (e ∷ es) s i =
      saver_events-from disk es (saver_event e s) (saver_event-IsSaver disk e s i)
