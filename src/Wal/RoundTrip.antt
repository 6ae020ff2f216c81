-- ===== src/Wal/RoundTrip.antt =====
-- The encoding of the simulator's engine (src/engine/storageEngine.ts) next to the server's recovery
-- (go/pkg/lsm/wal.go).
use info_crate.Common.{
  ℕ, zero, suc, ◌+◌, ◌/◌, ◌^◌, ◌≤◌, ◌<◌, ◌≡◌, refl, ap, ◌∙◌, sym, append-nil, Bool-cases, ltb→lt,
  inl, inr, arith, Option, none, some, List, [], ◌∷◌, ◌++◌, map, length, take, drop, All,
  length-append, take-append, drop-append, append_assoc, ltb,
}
use info_crate.Text.{JsString, encode}
use info_crate.Hash.{crc32_ieee}
use info_crate.Hash.Bounds.{crc32_ieee-lt}
use info_crate.Wal.{le_bytes, payload, raw_frame, put_raw, delete_raw}
use info_crate.Wal.Recover.{
  WalEntry, Recovered, recovered, u32, le_value, entry_of, read_frame, next_frame, recover, ℤ, pos,
  int64,
}
use native.Mathlib.Nat.{pow-suc}

pub le_value-le_bytes : (n x : ℕ) → x < 256 ^ n → le_value (le_bytes n x) ≡ x
unfolding le_value le_bytes
le_value-le_bytes zero x h = omega arith
le_value-le_bytes (suc n) x h =
    omega (arith, le_value-le_bytes n (x / 256) (omega (arith, pow-suc 256 n)))

-- A call on the engine, and the bytes that it appends to the log.
pub data Write : Type 0 where
  put : ℕ → JsString → JsString → Write
  delete : ℕ → JsString → Write

unfoldable pub frame_of : Write → List ℕ
frame_of (put ts key value) = put_raw ts key value
frame_of (delete ts key) = delete_raw ts key

unfoldable pub log_of : List Write → List ℕ
log_of [] = []
log_of (w ∷ ws) = frame_of w ++ log_of ws

abbrev pub time_of : Write → ℕ
time_of (put ts key value) = ts
time_of (delete ts key) = ts

abbrev pub key_of : Write → List ℕ
key_of (put ts key value) = encode key
key_of (delete ts key) = encode key

abbrev pub value_of : Write → List ℕ
value_of (put ts key value) = encode value
value_of (delete ts key) = []

-- The size fits its fields, and the time an `int64`.
pub record Fits (w : Write) : Type 0 where
  pub time : time_of w < 2 ^ 63
  pub size : 16 + length (key_of w) + length (value_of w) < 2 ^ 32

abbrev pub decoded : Write → WalEntry
decoded w =
    entry_of (crc32_ieee (payload (time_of w) (key_of w) (value_of w))) (pos (time_of w)) (key_of w)
      (value_of w)

read_frame_lem :
    (expected : ℕ) (ts : ℤ) (key val meta rest : List ℕ) (entries : List WalEntry)
    → 16 + length key + length val < 2 ^ 32
    → crc32_ieee (meta ++ (key ++ val)) ≡ expected
    → read_frame expected ts (length key) (length val) meta ((key ++ val) ++ rest) entries
      ≡ (none, entries ++ entry_of expected ts key val ∷ [], rest)
unfolding read_frame
read_frame_lem expected ts key val meta rest entries fits sum =
    let size : u32 (length key + length val) ≡ length (key ++ val) =
      omega (arith, length-append key val) in
    rw
      (
        size,
        take-append (key ++ val) rest,
        drop-append (key ++ val) rest,
        take-append key val,
        drop-append key val,
        sum,
      )
      (ground (arith, length-append (key ++ val) rest, length-append key val))

-- One round of the loop, from what the header holds.
module _ (file : List ℕ) (entries : List WalEntry) {expected ts k v : ℕ} {meta rest : List ℕ}
    (whole : 20 ≤ length file) (sum : le_value (take 4 file) ≡ expected)
    (time : le_value (take 8 (drop 4 file)) ≡ ts) (key_size : le_value (take 4 (drop 12 file)) ≡ k)
    (val_size : le_value (take 4 (drop 16 file)) ≡ v) (meta_bytes : take 16 (drop 4 file) ≡ meta)
    (data_bytes : drop 20 file ≡ rest) where
  pub next_frame_lem :
      next_frame file entries ≡ read_frame expected (int64 ts) k v meta rest entries
  unfolding next_frame
  next_frame_lem =
      rw (sum, time, key_size, val_size, meta_bytes, data_bytes)
        (elim (Bool-cases (ltb (length file) 20)) [
          | inl short ↦ absurd (omega (arith, ltb→lt))
          | inr long ↦ rw long
        ])

pub recover_step :
    (fuel : ℕ) (file : List ℕ) (entries : List WalEntry) {after : List ℕ} {more : List WalEntry}
    → next_frame file entries ≡ (none, more, after)
    → recover (suc fuel) file entries ≡ recover fuel after more
unfolding recover
recover_step fuel file entries step =
    ap
      (λ (st : Option Recovered × List WalEntry × List ℕ). elim st.0 as (λ _. Recovered) [
        | some r ↦ r
        | none ↦ recover fuel st.2 st.1
      ])
      step

pub raw_frame_step :
    (fuel ts : ℕ) (key val rest : List ℕ) (entries : List WalEntry)
    → ts < 2 ^ 64
    → 16 + length key + length val < 2 ^ 32
    → recover (suc fuel) (raw_frame ts key val ++ rest) entries
      ≡ recover fuel rest
          (entries ++ entry_of (crc32_ieee (payload ts key val)) (int64 ts) key val ∷ [])
unfolding raw_frame payload le_bytes
raw_frame_step fuel ts key val rest entries time size =
    recover_step fuel (raw_frame ts key val ++ rest) entries (
      next_frame_lem (raw_frame ts key val ++ rest) entries (omega arith)
        (le_value-le_bytes 4 (crc32_ieee (payload ts key val)) (crc32_ieee-lt (payload ts key val)))
        (le_value-le_bytes 8 ts time) (le_value-le_bytes 4 (length key) (omega arith))
        (le_value-le_bytes 4 (length val) (omega arith)) refl refl
      ∙ read_frame_lem (crc32_ieee (payload ts key val)) (int64 ts) key val
          (le_bytes 8 ts ++ (le_bytes 4 (length key) ++ le_bytes 4 (length val))) rest entries size
          refl)

-- What one frame holds: the time, the bytes of the key and those of the value.
pub record Raw : Type 0 where
  pub ts : ℕ
  pub key : List ℕ
  pub val : List ℕ

-- The frames one after the other.
unfoldable pub raw_log : List Raw → List ℕ
raw_log [] = []
raw_log (r ∷ rs) = raw_frame r.ts r.key r.val ++ raw_log rs

pub record RawFits (r : Raw) : Type 0 where
  pub time : r.ts < 2 ^ 64
  pub size : 16 + length r.key + length r.val < 2 ^ 32

abbrev pub raw_decoded : Raw → WalEntry
raw_decoded r = entry_of (crc32_ieee (payload r.ts r.key r.val)) (int64 r.ts) r.key r.val

pub recover_from :
    (fuel : ℕ) (rs : List Raw) (entries : List WalEntry)
    → length rs ≤ fuel
    → All RawFits rs
    → recover fuel (raw_log rs) entries ≡ recovered (entries ++ map raw_decoded rs)
unfolding raw_log
recover_from zero [] entries enough fits = unfold recover in ap recovered (sym (append-nil entries))
recover_from (suc fuel) [] entries enough fits =
    unfold recover next_frame in ap recovered (sym (append-nil entries))
recover_from zero (r ∷ rs) entries enough fits = absurd (omega arith)
recover_from (suc fuel) (r ∷ rs) entries enough fits =
    raw_frame_step fuel r.ts r.key r.val (raw_log rs) entries fits.0.time fits.0.size
    ∙ recover_from fuel rs (entries ++ raw_decoded r ∷ []) (omega arith) fits.1
    ∙ ap recovered (append_assoc entries (raw_decoded r ∷ []) (map raw_decoded rs))

-- Frames that fit are recovered in full, one round for each.
pub recover-raw_log :
    (rs : List Raw)
    → All RawFits rs
    → recover (length rs) (raw_log rs) [] ≡ recovered (map raw_decoded rs)
recover-raw_log rs fits = recover_from (length rs) rs [] (omega arith) fits

abbrev raw_of : Write → Raw
raw_of w = record { ts = time_of w; key = key_of w; val = value_of w }
