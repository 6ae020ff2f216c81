-- ===== src/Lsm/History.antt =====
-- Whole histories of calls on a new engine of src/engine/storageEngine.ts.
use info_crate.Common.{
  ℕ, ◌≡◌, refl, ap, ◌∙◌, sym, Bool, true, false, Option, none, some, List, [], ◌∷◌, if◌then◌else◌,
  Ordering,
}
use info_crate.Text.{JsString}
use info_crate.SsTable.{Entry, or_else}
use info_crate.Lsm.{
  SimulatedLsmEngine, empty_engine, set_memtable, log_frame, add_l1_table, trigger_compaction,
  flush, rotate_and_flush, rotate_if_full, put, delete,
}
use info_crate.Lsm.Lookup.{get}
use info_crate.Lsm.Counts.{
  Call, puts, deletes, flushes, compacts, step, run, IsValid, step-IsValid, run-IsValid,
}
use info_crate.Lsm.Newest.{outcome, newest, l1_entry, outcome-get}
use info_crate.Lsm.Compaction.{l1_entry-append}
use info_crate.Lsm.Range.{Collation}
use info_crate.Lsm.Timed.{IsTimed}
use info_crate.Lsm.Refinement.{after_all, clock, IsOrderly, step-IsTimed, get-step}

-- Level 1 does not have the key.
LacksL1 : JsString → SimulatedLsmEngine → Type 0
LacksL1 q s = l1_entry s.l1_tables q ≡ none

or_else-left_none : (x y : Option Entry) → or_else x y ≡ none → x ≡ none
or_else-left_none none y h = refl
or_else-left_none (some e) y h = h

module _ (q : JsString) where
  -- A table of level 1 is never removed.
  add_l1_table-LacksL1 :
      (s : SimulatedLsmEngine) (merged : List Entry)
      → LacksL1 q (add_l1_table s merged)
      → LacksL1 q s
  unfolding add_l1_table LacksL1
  add_l1_table-LacksL1 s [] h = h
  add_l1_table-LacksL1 s (e ∷ merged) h =
      or_else-left_none _ _ (sym (l1_entry-append s.l1_tables _ q) ∙ h)

  add_cleared-LacksL1 :
      (s : SimulatedLsmEngine) (merged : List Entry)
      → LacksL1 q (add_l1_table (record s { l0_tables = [] }) merged)
      → LacksL1 q s
  unfolding LacksL1
  add_cleared-LacksL1 s merged h =
      unfold add_l1_table in add_l1_table-LacksL1 (record s { l0_tables = [] }) merged h

  if-LacksL1 :
      (b : Bool) (s t u : SimulatedLsmEngine)
      → (LacksL1 q s → LacksL1 q u)
      → (LacksL1 q t → LacksL1 q u)
      → LacksL1 q (if b then s else t)
      → LacksL1 q u
  if-LacksL1 true s t u h k n = h n
  if-LacksL1 false s t u h k n = k n

module _ (collate : JsString → JsString → Ordering) (q : JsString) where
  trigger_compaction-LacksL1 :
      (s : SimulatedLsmEngine) → LacksL1 q (trigger_compaction collate s) → LacksL1 q s
  unfolding trigger_compaction
  trigger_compaction-LacksL1 s = if-LacksL1 q _ _ _ s (λ h. h) (add_cleared-LacksL1 q s _)

  rotate_and_flush-LacksL1 :
      (s : SimulatedLsmEngine) → LacksL1 q (rotate_and_flush collate s) → LacksL1 q s
  unfolding rotate_and_flush
  rotate_and_flush-LacksL1 s =
      if-LacksL1 q _ _ _ s (λ h. h)
        (if-LacksL1 q _ _ _ s (λ h. back (trigger_compaction-LacksL1 (flush collate s) h)) back)
    where
      back : LacksL1 q (flush collate s) → LacksL1 q s
      back h = unfold flush LacksL1 in h

  rotate_if_full-LacksL1 :
      (s : SimulatedLsmEngine) → LacksL1 q (rotate_if_full collate s) → LacksL1 q s
  unfolding rotate_if_full
  rotate_if_full-LacksL1 s = if-LacksL1 q _ _ _ s (rotate_and_flush-LacksL1 s) (λ h. h)

  step-LacksL1 :
      (s : SimulatedLsmEngine) (call : Call) → LacksL1 q (step collate s call) → LacksL1 q s
  unfolding step put delete
  step-LacksL1 s (puts ts flips key value) h =
      unfold set_memtable log_frame LacksL1 in rotate_if_full-LacksL1 _ h
  step-LacksL1 s (deletes ts flips key) h =
      unfold set_memtable log_frame LacksL1 in rotate_if_full-LacksL1 _ h
  step-LacksL1 s flushes h = rotate_and_flush-LacksL1 s h
  step-LacksL1 s compacts h = trigger_compaction-LacksL1 s h

  run-LacksL1 :
      (s : SimulatedLsmEngine) (calls : List Call) → LacksL1 q (run collate s calls) → LacksL1 q s
  unfolding run
  run-LacksL1 s [] h = h
  run-LacksL1 s (call ∷ calls) h = step-LacksL1 s call (run-LacksL1 (step collate s call) calls h)

module _ (c : Collation) (q : JsString) where
  open c use {locale_compare}

  history :
      (last : ℕ) (s : SimulatedLsmEngine) (calls : List Call)
      → IsOrderly c last calls
      → IsValid s
      → IsTimed c last s
      → LacksL1 q (run locale_compare s calls)
      → outcome (get (run locale_compare s calls) q) ≡ after_all calls q (outcome (get s q))
  unfolding run LacksL1
  history last s [] orderly v t n = refl
  history last s (call ∷ calls) orderly v t n =
      history (clock last call) (step locale_compare s call) calls orderly.2
        (step-IsValid locale_compare s call v)
        (step-IsTimed c q last s call orderly.0 orderly.1 v.sound t) n
      ∙ ap (after_all calls q) (
          get-step c q last s call orderly.0 orderly.1 v t (
            step-LacksL1 locale_compare q s call
              (run-LacksL1 locale_compare q (step locale_compare s call) calls n)))

  -- After any history of calls on a new engine, with times that do not run backwards and keys that
  -- the collation sorts as `<` does, `get` answers as a map would: by the last `put` or `delete` of
  -- the key. It is shown for a key that no compaction has left on level 1.
  pub get-run :
      (calls : List Call)
      → IsOrderly c 0 calls
      → l1_entry (run locale_compare empty_engine calls).l1_tables q ≡ none
      → outcome (get (run locale_compare empty_engine calls) q) ≡ after_all calls q (false, none)
  get-run calls orderly n =
      history 0 empty_engine calls orderly new_IsValid
        (record { mem_le = tt; l0_le = tt; later = tt; recent = tt; plain_mem = tt; plain_l0 = tt })
        (unfold LacksL1 in n)
      ∙ ap (after_all calls q)
          (outcome-get empty_engine q new_IsValid.sound ∙ unfold newest l1_entry in refl)
    where
      new_IsValid : IsValid empty_engine
      new_IsValid = unfold run in run-IsValid locale_compare []
