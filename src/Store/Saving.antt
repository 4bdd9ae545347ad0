-- ===== src/Store/Saving.antt =====
-- `save` of openStore in apps/poc/conversations.mjs: the chain of writes, one after the other, each to state.tmp
-- and then over state.json, and the latch that the first failure sets. A snapshot is the text of the
-- state at the call.
pub mod Settled
pub mod Durable
use agentmeld.Prelude.{
  Bool, true, false, not, List, [], ◌∷◌, ◌++◌, Option, none, some, if◌then◌else◌,
}

-- What state.tmp holds: nothing, a text that is not whole, or a snapshot.
pub data Temporary {ℓ} (A : Type ℓ) : Type ℓ where
  absent torn : Temporary A
  whole : A → Temporary A

-- `queue` holds the snapshots whose saves are not settled, the one that is written first; `renaming` says that its
-- write is over. `settled` has the settled saves that the chain took, in order, with their outcomes, and
-- `refused` says that the last call was rejected at once.
pub record Saver {ℓ} (A : Type ℓ) : Type ℓ where
  pub disk : Option A
  pub tmp : Temporary A
  pub queue : List A
  pub renaming : Bool
  pub failed : Bool
  pub settled : List (A × Bool)
  pub refused : Bool

module _ {ℓ} {A : Type ℓ} where
  -- save()
  unfoldable pub save : A → Saver A → Saver A
  save a s =
      if s.failed
      then record s { refused = true }
      else record s { queue = s.queue ++ a ∷ []; refused = false }

  -- The end of one save of the chain, and of its catch.
  abbrev pub settle_save : A → Bool → List A → Saver A → Saver A
  settle_save a ok rest s = record s {
    queue = rest;
    renaming = false;
    settled = s.settled ++ (a, ok) ∷ [];
    failed = if ok then s.failed else true;
  }

  -- The end of writeFile. A write that fails may leave a part of the text.
  unfoldable pub tmp_written : Bool → Saver A → Saver A
  tmp_written ok s = elim s.queue [
    | [] ↦ s
    | a ∷ rest ↦
        if s.renaming
        then s
        else if ok
        then record s { tmp = whole a; renaming = true }
        else settle_save a false rest (record s { tmp = torn })
  ]

  -- rename puts what state.tmp holds in the place of state.json, all of it or nothing.
  abbrev pub renamed_disk : Temporary A → Option A → Option A
  renamed_disk (whole a) disk = some a
  renamed_disk t disk = disk

  -- The end of rename.
  unfoldable pub tmp_renamed : Bool → Saver A → Saver A
  tmp_renamed ok s = elim s.queue [
    | [] ↦ s
    | a ∷ rest ↦
        if not s.renaming
        then s
        else if ok
        then settle_save a true rest (record s { disk = renamed_disk s.tmp s.disk; tmp = absent })
        else settle_save a false rest s
  ]

-- What happens to a saver.
pub data SaverEvent {ℓ} (A : Type ℓ) : Type ℓ where
  saves : A → SaverEvent A
  writes : Bool → SaverEvent A
  renames : Bool → SaverEvent A

module _ {ℓ} {A : Type ℓ} where
  unfoldable pub saver_event : SaverEvent A → Saver A → Saver A
  unfolding save tmp_written tmp_renamed
  saver_event (saves a) s = save a s
  saver_event (writes ok) s = tmp_written ok s
  saver_event (renames ok) s = tmp_renamed ok s

  unfoldable pub saver_events : List (SaverEvent A) → Saver A → Saver A
  unfolding saver_event
  saver_events [] s = s
  saver_events (e ∷ es) s = saver_events es (saver_event e s)

  -- The saver of openStore, over what state.json holds.
  abbrev pub new_saver : Option A → Saver A
  new_saver disk = record {
    disk = disk;
    tmp = absent;
    queue = [];
    renaming = false;
    failed = false;
    settled = [];
    refused = false;
  }
