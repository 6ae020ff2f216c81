-- ===== src/Server/Table/Records.antt =====
-- An entry that the writer of go/pkg/lsm/sstable.go encodes is the entry that the reader decodes.
use info_crate.Common.{
  ℕ, zero, suc, ◌+◌, ◌^◌, ◌≤◌, ◌<◌, ◌≡◌, refl, ap, ◌∙◌, sym, arith, Bool, Option, none, some, List,
  [], ◌∷◌, ◌++◌, map, length, take, drop, get_or, All, length-append, take-append, drop-append,
  append_assoc, append-nil, ◌==◌, Bool-cases, inl, inr, if◌then◌else◌,
}
use info_crate.Text.{str_eq, str_lt}
use info_crate.Wal.{le_bytes}
use info_crate.Wal.Recover.{le_value}
use info_crate.Wal.RoundTrip.{le_value-le_bytes}
use info_crate.Server.Memtable.{Entry}
use info_crate.Server.Table.{encode_entry}
use info_crate.Server.Table.Reader.{
  Record, next_record, scanned, scan_loop, get_step, get_loop, ScanStep, finished, continued,
}

-- The bytes of a value: a tombstone has none.
abbrev pub stored : Entry → List ℕ
stored e = if e.is_tombstone then [] else e.value

-- The sizes and the time fit their fields.
pub record EntryFits (e : Entry) : Type 0 where
  pub key_size : length e.key < 2 ^ 16
  pub val_size : length (stored e) < 2 ^ 32
  pub time : e.timestamp < 2 ^ 64

abbrev pub record_of : Entry → Record
record_of e = record {
  key = e.key;
  body = stored e;
  is_tombstone = e.is_tombstone;
  timestamp = e.timestamp;
}

abbrev flag_of : Entry → ℕ
flag_of e = if e.is_tombstone then 1 else 0

flag_lem : (e : Entry) → (flag_of e == 1) ≡ e.is_tombstone
flag_lem e = ground arith

module _ (bytes key val rest : List ℕ) {flag ts : ℕ} (whole : 15 ≤ length bytes)
    (key_size : le_value (take 2 bytes) ≡ length key)
    (val_size : le_value (take 4 (drop 2 bytes)) ≡ length val) (mark : get_or bytes 6 0 ≡ flag)
    (time : le_value (take 8 (drop 7 bytes)) ≡ ts)
    (data_bytes : drop 15 bytes ≡ (key ++ val) ++ rest) where
  next_record_lem :
      next_record bytes
      ≡ some (record { key = key; body = val; is_tombstone = flag == 1; timestamp = ts }, rest)
  unfolding next_record
  next_record_lem =
      let sum : length key + length val ≡ length (key ++ val) = sym (length-append key val) in
      rw
        (
          key_size,
          val_size,
          mark,
          time,
          data_bytes,
          sum,
          take-append (key ++ val) rest,
          drop-append (key ++ val) rest,
          take-append key val,
          drop-append key val,
        )
        (ground (arith, length-append (key ++ val) rest, whole))

pub next_record-encode_entry :
    (e : Entry) (rest : List ℕ)
    → EntryFits e
    → next_record (encode_entry e ++ rest) ≡ some (record_of e, rest)
unfolding encode_entry le_bytes
next_record-encode_entry e rest fits =
    next_record_lem (encode_entry e ++ rest) e.key (stored e) rest (omega arith)
      (le_value-le_bytes 2 (length e.key) (omega (arith, fits.key_size)))
      (le_value-le_bytes 4 (length (stored e)) (omega (arith, fits.val_size))) refl
      (le_value-le_bytes 8 e.timestamp (omega (arith, fits.time))) refl
    ∙ ap (λ (t : Bool). some (record (record_of e) { is_tombstone = t }, rest)) (flag_lem e)

-- The entries one after the other.
unfoldable pub encode_entries : List Entry → List ℕ
encode_entries [] = []
encode_entries (e ∷ entries) = encode_entry e ++ encode_entries entries

-- What `ScanAll` yields for an entry: a tombstone's value is not there.
abbrev pub read_back : Entry → Entry
read_back e = record e { value = stored e }

scan_loop_step :
    (fuel : ℕ) (bytes : List ℕ) {r : Record} {rest : List ℕ}
    → next_record bytes ≡ some (r, rest)
    → scan_loop (suc fuel) bytes ≡ scanned r ∷ scan_loop fuel rest
unfolding scan_loop
scan_loop_step fuel bytes step =
    ap
      (λ (o : Option (Record × List ℕ)). elim o as (λ _. List Entry) [
        | none ↦ []
        | some p ↦ scanned p.0 ∷ scan_loop fuel p.1
      ])
      step

scanned_lem : (e : Entry) → scanned (record_of e) ≡ read_back e
unfolding scanned
scanned_lem e = ground arith

pub scan_loop-encode_entries :
    (fuel : ℕ) (entries : List Entry)
    → length entries ≤ fuel
    → All EntryFits entries
    → scan_loop fuel (encode_entries entries) ≡ map read_back entries
unfolding encode_entries
scan_loop-encode_entries zero [] enough fits = unfold scan_loop in refl
scan_loop-encode_entries (suc fuel) [] enough fits = unfold scan_loop next_record in refl
scan_loop-encode_entries zero (e ∷ entries) enough fits = absurd (omega arith)
scan_loop-encode_entries (suc fuel) (e ∷ entries) enough fits =
    scan_loop_step fuel (encode_entry e ++ encode_entries entries)
      (next_record-encode_entry e (encode_entries entries) fits.0)
    ∙ rw (scanned_lem e, scan_loop-encode_entries fuel entries (omega arith) fits.1) refl

-- What the scan of `Get` looks for: the first entry of the key, given up at a larger key.
unfoldable pub find_stored : List ℕ → List Entry → Option (List ℕ × Bool)
find_stored q [] = none
find_stored q (e ∷ entries) =
    if str_eq e.key q
    then some (stored e, e.is_tombstone)
    else if str_lt q e.key
    then none
    else find_stored q entries

get_loop-finished :
    (fuel : ℕ) (q bytes : List ℕ) {o : Option (List ℕ × Bool)}
    → get_step q (next_record bytes) ≡ finished o
    → get_loop (suc fuel) q bytes ≡ o
unfolding get_loop
get_loop-finished fuel q bytes step =
    ap
      (λ (st : ScanStep). elim st as (λ _. Option (List ℕ × Bool)) [
        | finished r ↦ r
        | continued rest ↦ get_loop fuel q rest
      ])
      step

get_loop-continued :
    (fuel : ℕ) (q bytes : List ℕ) {rest : List ℕ}
    → get_step q (next_record bytes) ≡ continued rest
    → get_loop (suc fuel) q bytes ≡ get_loop fuel q rest
unfolding get_loop
get_loop-continued fuel q bytes step =
    ap
      (λ (st : ScanStep). elim st as (λ _. Option (List ℕ × Bool)) [
        | finished r ↦ r
        | continued rest ↦ get_loop fuel q rest
      ])
      step

pub get_loop-encode_entries :
    (fuel : ℕ) (q : List ℕ) (entries : List Entry)
    → length entries ≤ fuel
    → All EntryFits entries
    → get_loop fuel q (encode_entries entries) ≡ find_stored q entries
unfolding encode_entries find_stored
get_loop-encode_entries zero q [] enough fits = unfold get_loop in refl
get_loop-encode_entries (suc fuel) q [] enough fits = unfold get_loop get_step next_record in refl
get_loop-encode_entries zero q (e ∷ entries) enough fits = absurd (omega arith)
get_loop-encode_entries (suc fuel) q (e ∷ entries) enough fits =
    let bytes = encode_entry e ++ encode_entries entries in
    let step = ap (get_step q) (next_record-encode_entry e (encode_entries entries) fits.0) in
    elim (Bool-cases (str_eq e.key q)) [
      | inl same ↦ rw same (get_loop-finished fuel q bytes (step ∙ unfold get_step in ground arith))
      | inr other ↦ elim (Bool-cases (str_lt q e.key)) [
        | inl above ↦
            rw (other, above)
              (get_loop-finished fuel q bytes (step ∙ unfold get_step in ground arith))
        | inr below ↦
            rw (other, below)
              (get_loop-continued fuel q bytes {rest = encode_entries entries}
                  (step ∙ unfold get_step in ground arith)
                ∙ get_loop-encode_entries fuel q entries (omega arith) fits.1)
      ]
    ]

pub length-encode_entries :
    (entries : List Entry) → length entries ≤ length (encode_entries entries)
unfolding encode_entries encode_entry le_bytes
length-encode_entries [] = omega arith
length-encode_entries (e ∷ entries) =
    omega (
      arith,
      length-encode_entries entries,
      length-append (encode_entry e) (encode_entries entries),
    )

pub encode_entries-snoc :
    (entries : List Entry) (e : Entry)
    → encode_entries (entries ++ e ∷ []) ≡ encode_entries entries ++ encode_entry e
unfolding encode_entries
encode_entries-snoc [] e = append-nil _
encode_entries-snoc (x ∷ entries) e =
    ap (◌++◌ (encode_entry x)) (encode_entries-snoc entries e)
    ∙ sym (append_assoc (encode_entry x) (encode_entries entries) (encode_entry e))
