-- ===== src/Lsm/LogFrames.antt =====
-- The window on the write-ahead log that an engine keeps.
use info_crate.Common.{
  ℕ, suc, ◌+◌, ◌≤◌, ◌≡◌, refl, arith, Bool, true, false, List, [], ◌∷◌, length, drop_last,
  length-drop_last, length-append, Bool-cases, inl, inr, ltb, Ordering, Option, if◌then◌else◌,
}
use info_crate.Text.{JsString, encode}
use info_crate.SsTable.{Entry}
use info_crate.Wal.{
  WalFrame, le_bytes, payload, raw_frame, put_frame, delete_frame, put_raw, delete_raw,
}
use info_crate.Lsm.{
  SimulatedLsmEngine, empty_engine, set_memtable, log_frame, add_l1_table, trigger_compaction,
  flush, rotate_and_flush, rotate_if_full, put, delete,
}
use info_crate.Lsm.Counts.{Call, puts, deletes, flushes, compacts, step, run}

-- The newest frame first, each frame ends where the one before it in the list begins, and the newest
-- ends at `end`.
abbrev pub IsChain : ℕ → List WalFrame → Type 0
IsChain end [] = Unit
IsChain end (f ∷ frames) = (f.offset + 20 + f.key_size + f.val_size ≡ end) × IsChain f.offset frames

IsChain-drop_last :
    (end : ℕ) (frames : List WalFrame) → IsChain end frames → IsChain end (drop_last frames)
IsChain-drop_last end [] h = tt
IsChain-drop_last end (f ∷ []) h = tt
IsChain-drop_last end (f ∷ g ∷ frames) h = (h.0, IsChain-drop_last f.offset (g ∷ frames) h.1)

length-raw_frame :
    (ts : ℕ) (key val : List ℕ) → length (raw_frame ts key val) ≡ 20 + length key + length val
unfolding raw_frame payload le_bytes
length-raw_frame ts key val = omega (arith, length-append key val)

pub record IsLogged (s : SimulatedLsmEngine) : Type 0 where
  pub chain : IsChain s.current_offset s.wal_frames
  pub window : length s.wal_frames ≤ 50

log_frame-IsLogged :
    (s : SimulatedLsmEngine) (f : WalFrame) (size : ℕ)
    → f.offset ≡ s.current_offset
    → size ≡ 20 + f.key_size + f.val_size
    → IsLogged s
    → IsLogged (log_frame s f size)
unfolding log_frame
log_frame-IsLogged s f size here long v = elim (Bool-cases (ltb 50 (suc (length s.wal_frames)))) [
  | inl over ↦ rw over (record {
    chain = IsChain-drop_last _ (f ∷ s.wal_frames) longer;
    window = omega (arith, length-drop_last f s.wal_frames, v.window);
  })
  | inr fits ↦ rw fits (record { chain = longer; window = ground arith })
]
  where
    longer : IsChain (s.current_offset + size) (f ∷ s.wal_frames)
    longer = (omega arith, rw here v.chain)

set_memtable-IsLogged :
    (s : SimulatedLsmEngine) (key : JsString) (value : Option JsString) (is_tombstone : Bool)
    (ts : ℕ) (flips : List Bool)
    → IsLogged s
    → IsLogged (set_memtable s key value is_tombstone ts flips)
unfolding set_memtable
set_memtable-IsLogged s key value is_tombstone ts flips v = record {
  chain = v.chain;
  window = v.window;
}

add_l1_table-IsLogged :
    (s : SimulatedLsmEngine) (merged : List Entry) → IsLogged s → IsLogged (add_l1_table s merged)
unfolding add_l1_table
add_l1_table-IsLogged s [] v = v
add_l1_table-IsLogged s (e ∷ merged) v = record { chain = v.chain; window = v.window }

if-IsLogged :
    (b : Bool) (s t : SimulatedLsmEngine) → IsLogged s → IsLogged t → IsLogged (if b then s else t)
if-IsLogged true s t v w = v
if-IsLogged false s t v w = w

module _ (collate : JsString → JsString → Ordering) where
  trigger_compaction-IsLogged :
      (s : SimulatedLsmEngine) → IsLogged s → IsLogged (trigger_compaction collate s)
  unfolding trigger_compaction
  trigger_compaction-IsLogged s v =
      if-IsLogged _ _ _ v
        (add_l1_table-IsLogged _ _ (record { chain = v.chain; window = v.window }))

  flush-IsLogged : (s : SimulatedLsmEngine) → IsLogged s → IsLogged (flush collate s)
  unfolding flush
  flush-IsLogged s v = record { chain = v.chain; window = v.window }

  rotate_and_flush-IsLogged :
      (s : SimulatedLsmEngine) → IsLogged s → IsLogged (rotate_and_flush collate s)
  unfolding rotate_and_flush
  rotate_and_flush-IsLogged s v =
      if-IsLogged _ _ _ v (
        if-IsLogged _ _ _ (trigger_compaction-IsLogged _ (flush-IsLogged s v)) (flush-IsLogged s v))

  rotate_if_full-IsLogged :
      (s : SimulatedLsmEngine) → IsLogged s → IsLogged (rotate_if_full collate s)
  unfolding rotate_if_full
  rotate_if_full-IsLogged s v = if-IsLogged _ _ _ (rotate_and_flush-IsLogged s v) v

  pub step-IsLogged : (s : SimulatedLsmEngine) (c : Call) → IsLogged s → IsLogged (step collate s c)
  unfolding step put delete put_frame delete_frame put_raw delete_raw
  step-IsLogged s (puts ts flips key value) v = rotate_if_full-IsLogged _ (
      set_memtable-IsLogged _ key _ _ ts flips (
        log_frame-IsLogged s (put_frame s.current_offset ts key value) _ refl
          (length-raw_frame ts (encode key) (encode value)) v))
  step-IsLogged s (deletes ts flips key) v = rotate_if_full-IsLogged _ (
      set_memtable-IsLogged _ key _ _ ts flips (
        log_frame-IsLogged s (delete_frame s.current_offset ts key) _ refl
          (length-raw_frame ts (encode key) []) v))
  step-IsLogged s flushes v = rotate_and_flush-IsLogged s v
  step-IsLogged s compacts v = trigger_compaction-IsLogged s v

  run-IsLogged_from :
      (s : SimulatedLsmEngine) (cs : List Call) → IsLogged s → IsLogged (run collate s cs)
  unfolding run
  run-IsLogged_from s [] v = v
  run-IsLogged_from s (c ∷ cs) v = run-IsLogged_from (step collate s c) cs (step-IsLogged s c v)

  -- After any calls on a new engine the window holds at most fifty frames, and the frames in it lie
  -- end to end in the log, the newest of them up to the engine's current offset.
  pub run-IsLogged : (cs : List Call) → IsLogged (run collate empty_engine cs)
  run-IsLogged cs = run-IsLogged_from empty_engine cs (record { chain = tt; window = omega arith })
