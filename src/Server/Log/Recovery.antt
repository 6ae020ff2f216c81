-- ===== src/Server/Log/Recovery.antt =====
-- What `Recover` of go/pkg/lsm/wal.go reads after the calls of `Write` and `Reset`.
use info_crate.Common.{
  ℕ, ◌+◌, ◌^◌, ◌<◌, ◌≡◌, refl, ap, ◌∙◌, sym, arith, Bool, Option, List, [], ◌∷◌, ◌++◌, length, All,
  All-append, length-append, append-nil, append_assoc,
}
use info_crate.Hash.{crc32_ieee}
use info_crate.Wal.{le_bytes, payload, raw_frame}
use info_crate.Wal.Recover.{u32}
use info_crate.Wal.RoundTrip.{Raw, RawFits, raw_log}
use info_crate.Server.Log.{
  WalFile, io_ok, value_bytes, copied, write_payload, write_frame, write, reset,
}

-- A call on the log that succeeds.
pub data LogCall : Type 0 where
  log_write : ℕ → List ℕ → Option (List ℕ) → Bool → LogCall
  log_reset : LogCall

unfoldable pub run_log : List LogCall → WalFile → WalFile
run_log [] w = w
run_log (log_write ts key value is_tombstone ∷ calls) w =
    run_log calls (write io_ok ts key value is_tombstone w).0
run_log (log_reset ∷ calls) w = run_log calls (reset w)

abbrev pub raw_call : ℕ → List ℕ → Option (List ℕ) → Bool → Raw
raw_call ts key value is_tombstone = record {
  ts = ts;
  key = key;
  val = value_bytes value is_tombstone;
}

-- The writes since the last reset, behind those of `rs`.
unfoldable pub live : List Raw → List LogCall → List Raw
live rs [] = rs
live rs (log_write ts key value is_tombstone ∷ calls) =
    live (rs ++ raw_call ts key value is_tombstone ∷ []) calls
live rs (log_reset ∷ calls) = live [] calls

abbrev pub CallFits : LogCall → Type 0
CallFits (log_write ts key value is_tombstone) = RawFits (raw_call ts key value is_tombstone)
CallFits log_reset = Unit

copied_lem : (v : List ℕ) → length v < 2 ^ 32 → copied v ≡ v
unfolding copied
copied_lem [] h = refl
copied_lem (b ∷ v) h = ground arith

write_payload_lem :
    (ts : ℕ) (key val : List ℕ)
    → 16 + length key + length val < 2 ^ 32
    → write_payload ts key val ≡ payload ts key val
unfolding write_payload payload
write_payload_lem ts key val h =
    let key_size : u32 (length key) ≡ length key = omega arith in
    let val_size : u32 (length val) ≡ length val = omega arith in
    rw (copied_lem val (omega arith), key_size, val_size) refl

write_frame_lem :
    (ts : ℕ) (key val : List ℕ)
    → 16 + length key + length val < 2 ^ 32
    → write_frame ts key val ≡ raw_frame ts key val
unfolding write_frame raw_frame
write_frame_lem ts key val h =
    ap (λ (p : List ℕ). le_bytes 4 (crc32_ieee p) ++ p) (write_payload_lem ts key val h)

raw_log-snoc :
    (rs : List Raw) (r : Raw) → raw_log (rs ++ r ∷ []) ≡ raw_log rs ++ raw_frame r.ts r.key r.val
unfolding raw_log
raw_log-snoc [] r = append-nil _
raw_log-snoc (x ∷ rs) r =
    ap (◌++◌ (raw_frame x.ts x.key x.val)) (raw_log-snoc rs r)
    ∙ sym (append_assoc (raw_frame x.ts x.key x.val) (raw_log rs) _)

-- The file holds the frames of the writes since the last reset, and its size is the count of them.
pub record Holds (rs : List Raw) (w : WalFile) : Type 0 where
  pub bytes : w.file ≡ raw_log rs
  pub counted : w.byte_size ≡ length w.file
  pub fits : All RawFits rs

write-Holds :
    (ts : ℕ) (key : List ℕ) (value : Option (List ℕ)) (tomb : Bool) (rs : List Raw) (w : WalFile)
    → RawFits (raw_call ts key value tomb)
    → Holds rs w
    → Holds (rs ++ raw_call ts key value tomb ∷ []) (write io_ok ts key value tomb w).0
unfolding write
write-Holds ts key value tomb rs w f h = record {
  bytes = rw (write_frame_lem ts key (value_bytes value tomb) f.size, h.bytes, raw_log-snoc) refl;
  counted = omega (arith, h.counted, length-append w.file _);
  fits = All-append RawFits rs _ h.fits (f, tt);
}

pub run_log-Holds :
    (calls : List LogCall) (rs : List Raw) (w : WalFile)
    → All CallFits calls
    → Holds rs w
    → Holds (live rs calls) (run_log calls w)
unfolding run_log live
run_log-Holds [] rs w f h = h
run_log-Holds (log_write ts key value tomb ∷ calls) rs w f h =
    run_log-Holds calls _ _ f.1 (write-Holds ts key value tomb rs w f.0 h)
run_log-Holds (log_reset ∷ calls) rs w f h =
    run_log-Holds calls [] (reset w) f.1
      (unfold reset raw_log in record { bytes = refl; counted = refl; fits = tt })
