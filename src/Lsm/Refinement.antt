-- ===== src/Lsm/Refinement.antt =====
-- The engine against a map from keys to values.
use info_crate.Common.{
  ℕ, ◌≤◌, ◌≡◌, sym, ap, ◌∙◌, Bool, true, false, Option, none, some, List, [], ◌∷◌, if◌then◌else◌,
  Bool-cases, inl, inr, ◌⊎◌, length, leb, ◌==◌,
}
use info_crate.Text.{JsString, str_eq}
use info_crate.Dict.Laws.{Distinct}
use info_crate.Wal.{WalFrame}
use info_crate.Lsm.{
  SimulatedLsmEngine, set_memtable, log_frame, trigger_compaction, flush, rotate_and_flush,
  rotate_if_full, put, delete,
}
use info_crate.Lsm.Lookup.{get}
use info_crate.Lsm.Counts.{
  Call, puts, deletes, flushes, compacts, step, IsValid, IsSound, step-IsValid,
  set_memtable-IsSound, log_frame-IsSound,
}
use info_crate.Lsm.Newest.{answer, outcome, newest, l1_entry, outcome-get}
use info_crate.Lsm.Rotation.{written, newest-log_frame, newest-set_memtable, newest-flush}
use info_crate.Lsm.Compaction.{answer-trigger_compaction}
use info_crate.Lsm.Range.{Collation}
use info_crate.Lsm.Timed.{
  IsTimed, set_memtable-IsTimed, log_frame-IsTimed, flush-IsTimed, trigger_compaction-IsTimed,
  rotate_and_flush-IsTimed, rotate_if_full-IsTimed,
}

-- What a client expects of a key after a call, from what it saw before.
abbrev pub after : Call → JsString → Bool × Option JsString → Bool × Option JsString
after (puts ts flips key value) q seen = if str_eq key q then (true, some value) else seen
after (deletes ts flips key) q seen = if str_eq key q then (false, none) else seen
after flushes q seen = seen
after compacts q seen = seen

abbrev pub after_all : List Call → JsString → Bool × Option JsString → Bool × Option JsString
after_all [] q seen = seen
after_all (c ∷ cs) q seen = after_all cs q (after c q seen)

-- The time of the last write.
abbrev pub clock : ℕ → Call → ℕ
clock last (puts ts flips key value) = ts
clock last (deletes ts flips key) = ts
clock last flushes = last
clock last compacts = last

module _ (c : Collation) where
  open c use {locale_compare, IsPlain}

  abbrev HasPlainKey : Call → Type 0
  HasPlainKey (puts ts flips key value) = IsPlain key
  HasPlainKey (deletes ts flips key) = IsPlain key
  HasPlainKey flushes = Unit
  HasPlainKey compacts = Unit

  -- Calls whose times do not run backwards, on plain keys.
  abbrev pub IsOrderly : ℕ → List Call → Type 0
  IsOrderly last [] = Unit
  IsOrderly last (call ∷ calls) =
      (last ≤ clock last call) × HasPlainKey call × IsOrderly (clock last call) calls

  module _ (q : JsString) where
    answer-rotate_and_flush :
        (last : ℕ) (s : SimulatedLsmEngine)
        → Distinct s.memtable
        → IsTimed c last s
        → l1_entry s.l1_tables q ≡ none
        → answer (newest (rotate_and_flush locale_compare s) q) ≡ answer (newest s q)
    unfolding rotate_and_flush
    answer-rotate_and_flush last s distinct t fresh = elim (Bool-cases (length s.memtable == 0)) [
      | inl none_left ↦ rw none_left
      | inr some_left ↦
          rw some_left (elim (Bool-cases (leb 3 (length (flush locale_compare s).l0_tables))) [
            | inl many ↦ rw many (compacted ∙ flushed)
            | inr few ↦ rw few flushed
          ])
    ]
      where
        timed : IsTimed c last (flush locale_compare s)
        timed = flush-IsTimed c last s distinct t

        flushed : answer (newest (flush locale_compare s) q) ≡ answer (newest s q)
        flushed = ap answer (newest-flush s q locale_compare distinct)

        compacted :
            answer (newest (trigger_compaction locale_compare (flush locale_compare s)) q)
            ≡ answer (newest (flush locale_compare s) q)
        compacted =
            answer-trigger_compaction c (flush locale_compare s) q (unfold flush in fresh)
              timed.recent timed.plain_l0

    answer-rotate_if_full :
        (last : ℕ) (s : SimulatedLsmEngine)
        → Distinct s.memtable
        → IsTimed c last s
        → l1_entry s.l1_tables q ≡ none
        → answer (newest (rotate_if_full locale_compare s) q) ≡ answer (newest s q)
    unfolding rotate_if_full
    answer-rotate_if_full last s distinct t fresh = elim (Bool-cases (leb 8 (length s.memtable))) [
      | inl full ↦ rw full (answer-rotate_and_flush last s distinct t fresh)
      | inr room ↦ rw room
    ]

    module _ (last : ℕ) (s : SimulatedLsmEngine) (f : WalFrame) (size : ℕ) (key : JsString)
        (value : Option JsString) (is_tombstone : Bool) (ts : ℕ) (flips : List Bool)
        (up : last ≤ ts) (plain : IsPlain key) (v : IsSound s) (t : IsTimed c last s) where
      stored : SimulatedLsmEngine
      stored = set_memtable (log_frame s f size) key value is_tombstone ts flips

      stored-IsTimed : IsTimed c ts stored
      unfolding stored
      stored-IsTimed =
          set_memtable-IsTimed c last _ key value is_tombstone ts flips up plain
            (log_frame-IsTimed c last s f size t)

      stored-IsSound : IsSound stored
      unfolding stored
      stored-IsSound =
          set_memtable-IsSound locale_compare _ key value is_tombstone ts flips
            (log_frame-IsSound locale_compare s f size v)

      write-IsTimed : IsTimed c ts (rotate_if_full locale_compare stored)
      write-IsTimed = rotate_if_full-IsTimed c ts stored stored-IsSound.distinct stored-IsTimed

      answer-write :
          l1_entry s.l1_tables q ≡ none
          → answer (newest (rotate_if_full locale_compare stored) q) ≡ (
              if str_eq key q
              then answer (some (written key value is_tombstone ts))
              else answer (newest s q))
      unfolding stored
      answer-write fresh =
          answer-rotate_if_full ts stored stored-IsSound.distinct stored-IsTimed
            (unfold set_memtable log_frame in fresh)
          ∙ ap answer (newest-set_memtable (log_frame s f size) q key value is_tombstone ts flips)
          ∙ split (Bool-cases (str_eq key q))
        where
          split :
              (str_eq key q ≡ true) ⊎ (str_eq key q ≡ false)
              → answer (
                  if str_eq key q
                  then some (written key value is_tombstone ts)
                  else newest (log_frame s f size) q)
                ≡ (if str_eq key q
                    then answer (some (written key value is_tombstone ts))
                    else answer (newest s q))
          split (inl same) = rw same
          split (inr other) = rw other (ap answer (newest-log_frame s q f size))

    pub step-IsTimed :
        (last : ℕ) (s : SimulatedLsmEngine) (call : Call)
        → last ≤ clock last call
        → HasPlainKey call
        → IsSound s
        → IsTimed c last s
        → IsTimed c (clock last call) (step locale_compare s call)
    unfolding step put delete stored
    step-IsTimed last s (puts ts flips key value) up plain v t =
        write-IsTimed last s _ _ key (some value) false ts flips up plain v t
    step-IsTimed last s (deletes ts flips key) up plain v t =
        write-IsTimed last s _ _ key none true ts flips up plain v t
    step-IsTimed last s flushes up plain v t = rotate_and_flush-IsTimed c last s v.distinct t
    step-IsTimed last s compacts up plain v t = trigger_compaction-IsTimed c last s t

    answer-step :
        (last : ℕ) (s : SimulatedLsmEngine) (call : Call)
        → last ≤ clock last call
        → HasPlainKey call
        → IsSound s
        → IsTimed c last s
        → l1_entry s.l1_tables q ≡ none
        → answer (newest (step locale_compare s call) q) ≡ after call q (answer (newest s q))
    unfolding step put delete stored
    answer-step last s (puts ts flips key value) up plain v t fresh =
        answer-write last s _ _ key (some value) false ts flips up plain v t fresh
    answer-step last s (deletes ts flips key) up plain v t fresh =
        answer-write last s _ _ key none true ts flips up plain v t fresh
    answer-step last s flushes up plain v t fresh =
        answer-rotate_and_flush last s v.distinct t fresh
    answer-step last s compacts up plain v t fresh =
        answer-trigger_compaction c s q fresh t.recent t.plain_l0

    -- One call, also one that flushes or compacts, changes what `get` answers for a key only as it
    -- changes a map: a `put` of the key makes it found with the value, a `delete` of it makes it not
    -- found, and all else leaves the answer. It is shown where the engine is valid, time does not run
    -- backwards, the collation sorts the stored keys as `<` does, and no table of level 1 has the key.
    pub get-step :
        (last : ℕ) (s : SimulatedLsmEngine) (call : Call)
        → last ≤ clock last call
        → HasPlainKey call
        → IsValid s
        → IsTimed c last s
        → l1_entry s.l1_tables q ≡ none
        → outcome (get (step locale_compare s call) q) ≡ after call q (outcome (get s q))
    get-step last s call up plain v t fresh =
        outcome-get _ q (step-IsValid locale_compare s call v).sound
        ∙ answer-step last s call up plain v.sound t fresh
        ∙ ap (after call q) (sym (outcome-get s q v.sound))
