-- ===== src/Server/Log/Torn.antt =====
-- `Recover` of go/pkg/lsm/wal.go at a frame of which a part is missing.
use info_crate.Common.{
  ℕ, zero, suc, ◌+◌, ◌-◌, ◌^◌, ◌≤◌, ◌<◌, ◌≡◌, refl, ap, ◌∙◌, sym, arith, Option, none, some, List,
  [], ◌∷◌, ◌++◌, length, take, length-append, ltb, ltb→lt, subst, Bool-cases, inl, inr,
}
use info_crate.Hash.{crc32_ieee}
use info_crate.Wal.{le_bytes, payload, raw_frame}
use info_crate.Wal.Recover.{WalEntry, Recovered, recovered, next_frame, recover, read_frame, ℤ}
use info_crate.Wal.RoundTrip.{RawFits, next_frame_lem, le_value-le_bytes}

take-append-more {ℓ} :
    {A : Type ℓ} (n : ℕ) (xs ys : List A)
    → length xs ≤ n
    → take n (xs ++ ys) ≡ xs ++ take (n - length xs) ys
take-append-more n [] ys h = ap (λ (k : ℕ). take k ys) (omega arith)
take-append-more zero (x ∷ xs) ys h = absurd (omega arith)
take-append-more (suc n) (x ∷ xs) ys h =
    ap (◌∷◌ x)
      (take-append-more n xs ys (omega arith) ∙ ap (λ (k : ℕ). xs ++ take k ys) (omega arith))

length-take-le {ℓ} : {A : Type ℓ} (n : ℕ) (xs : List A) → length (take n xs) ≤ n
length-take-le zero xs = omega arith
length-take-le (suc n) [] = omega arith
length-take-le (suc n) (x ∷ xs) = omega (arith, length-take-le n xs)

recover_stop :
    (fuel : ℕ) (file : List ℕ) (entries : List WalEntry) {more : List WalEntry} {after : List ℕ}
    → next_frame file entries ≡ (some (recovered entries), more, after)
    → recover fuel file entries ≡ recovered entries
recover_stop zero file entries stop = unfold recover in refl
recover_stop (suc fuel) file entries stop =
    unfold recover in
    ap
      (λ (st : Option Recovered × List WalEntry × List ℕ). elim st.0 as (λ _. Recovered) [
        | some r ↦ r
        | none ↦ recover fuel st.2 st.1
      ])
      stop

-- Less than a header is left.
next_frame-short :
    (file : List ℕ) (entries : List WalEntry)
    → length file < 20
    → next_frame file entries ≡ (some (recovered entries), entries, file)
unfolding next_frame
next_frame-short file entries h = ground arith

-- The header is there, the data is not.
read_frame-short :
    (expected : ℕ) (ts : ℤ) (k v : ℕ) (meta rest : List ℕ) (entries : List WalEntry)
    → 16 + k + v < 2 ^ 32
    → length rest < k + v
    → read_frame expected ts k v meta rest entries ≡ (some (recovered entries), entries, rest)
unfolding read_frame
read_frame-short expected ts k v meta rest entries fits short = ground arith

recover_torn_data :
    (fuel n ts : ℕ) (key val : List ℕ) (entries : List WalEntry)
    → RawFits (record { ts = ts; key = key; val = val })
    → n < length (raw_frame ts key val)
    → 20 ≤ n
    → recover fuel (take n (raw_frame ts key val)) entries ≡ recovered entries
unfolding raw_frame payload le_bytes
recover_torn_data fuel n ts key val entries fits short whole =
    let header =
      le_bytes 4 (crc32_ieee (payload ts key val))
      ++ (le_bytes 8 ts ++ (le_bytes 4 (length key) ++ le_bytes 4 (length val))) in
    let body = take (n - 20) (key ++ val) in
    subst (λ (file : List ℕ). recover fuel file entries ≡ recovered entries)
      (sym (take-append-more n header (key ++ val) whole))
      (recover_stop fuel (header ++ body) entries (
        next_frame_lem (header ++ body) entries (omega arith) refl refl
          (le_value-le_bytes 4 (length key) (omega (arith, fits.size)))
          (le_value-le_bytes 4 (length val) (omega (arith, fits.size))) refl refl
        ∙ read_frame-short _ _ (length key) (length val) _ body entries fits.size
            (omega (arith, length-take-le (n - 20) (key ++ val), length-append key val))))

-- A frame of which a part is missing ends the recovery.
pub recover_torn :
    (fuel n ts : ℕ) (key val : List ℕ) (entries : List WalEntry)
    → RawFits (record { ts = ts; key = key; val = val })
    → n < length (raw_frame ts key val)
    → recover fuel (take n (raw_frame ts key val)) entries ≡ recovered entries
recover_torn fuel n ts key val entries fits short = elim (Bool-cases (ltb n 20)) [
  | inl less ↦ recover_stop fuel _ entries (
      next_frame-short _ entries
        (omega (arith, length-take-le n (raw_frame ts key val), ltb→lt n 20 less)))
  | inr more ↦ recover_torn_data fuel n ts key val entries fits short (ground arith)
]
