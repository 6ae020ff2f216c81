-- ===== src/SsTable/Bloom.antt =====
-- The bits that a table's Bloom filter sets and checks.
use info_crate.Common.{
  ℕ, zero, suc, ◌<◌, ◌≡◌, refl, arith, Bool, true, false, some, List, [], ◌∷◌, length, set, get_or,
  replicate, length-set, length-replicate, Bool-cases, inl, inr,
}
use info_crate.Text.{JsString, str_eq}
use info_crate.Text.Laws.{str_eq_iff}
use info_crate.SsTable.{
  Entry, bloom_bit, set_bits, fill_bloom, create_ss_table, check_bits, check_bloom_filter,
  find_entry,
}

-- A set bit stays set.
get_or-set-true :
    (bits : List Bool) (i j : ℕ)
    → get_or bits j false ≡ true
    → get_or (set bits i true) j false ≡ true
get_or-set-true [] i j h = h
get_or-set-true (b ∷ bits) zero zero h = refl
get_or-set-true (b ∷ bits) zero (suc j) h = h
get_or-set-true (b ∷ bits) (suc i) zero h = h
get_or-set-true (b ∷ bits) (suc i) (suc j) h = get_or-set-true bits i j h

get_or-set_self :
    (bits : List Bool) (i : ℕ) → i < length bits → get_or (set bits i true) i false ≡ true
get_or-set_self [] i h = elim h [ ]
get_or-set_self (b ∷ bits) zero h = refl
get_or-set_self (b ∷ bits) (suc i) h = get_or-set_self bits i (omega arith)

set_bits_mono :
    (n i : ℕ) (key : JsString) (bits : List Bool) (j : ℕ)
    → get_or bits j false ≡ true
    → get_or (set_bits n i key bits) j false ≡ true
unfolding set_bits
set_bits_mono zero i key bits j h = h
set_bits_mono (suc n) i key bits j h =
    set_bits_mono n (suc i) key _ j (get_or-set-true bits (bloom_bit 64 key i) j h)

fill_bloom_mono :
    (entries : List Entry) (bits : List Bool) (j : ℕ)
    → get_or bits j false ≡ true
    → get_or (fill_bloom entries bits) j false ≡ true
unfolding fill_bloom
fill_bloom_mono [] bits j h = h
fill_bloom_mono (e ∷ entries) bits j h =
    fill_bloom_mono entries _ j (set_bits_mono 4 0 e.key bits j h)

length-set_bits :
    (n i : ℕ) (key : JsString) (bits : List Bool) → length (set_bits n i key bits) ≡ length bits
unfolding set_bits
length-set_bits zero i key bits = refl
length-set_bits (suc n) i key bits = omega (
  arith,
  length-set_bits n (suc i) key (set bits (bloom_bit 64 key i) true),
  length-set bits (bloom_bit 64 key i) true,
)

bloom_bit-lt : (key : JsString) (i : ℕ) → bloom_bit 64 key i < 64
unfolding bloom_bit
bloom_bit-lt key i = omega arith

-- The check passes on any array that keeps the bits of the rounds.
check_bits-set_bits :
    (n i : ℕ) (key : JsString) (bits all : List Bool)
    → length bits ≡ 64
    → ((j : ℕ) → get_or (set_bits n i key bits) j false ≡ true → get_or all j false ≡ true)
    → check_bits n i 64 key all ≡ true
unfolding check_bits set_bits
check_bits-set_bits zero i key bits all size keep = refl
check_bits-set_bits (suc n) i key bits all size keep = rw (keep p kept) (
    check_bits-set_bits n (suc i) key (set bits p true) all (omega (arith, length-set bits p true))
      keep)
  where
    p : ℕ
    p = bloom_bit 64 key i

    kept : get_or (set_bits n (suc i) key (set bits p true)) p false ≡ true
    kept =
        set_bits_mono n (suc i) key (set bits p true) p
          (get_or-set_self bits p (omega (arith, bloom_bit-lt key i)))

check_bits-fill_bloom :
    (key : JsString) (entries : List Entry) (bits : List Bool) {e : Entry}
    → length bits ≡ 64
    → find_entry key entries ≡ some e
    → check_bits 4 0 64 key (fill_bloom entries bits) ≡ true
unfolding fill_bloom
check_bits-fill_bloom key [] bits size h = cc
check_bits-fill_bloom key (d ∷ entries) bits size h = elim (Bool-cases (str_eq d.key key)) [
  | inl same ↦ rw (← (str_eq_iff d.key key).0 same) (
      check_bits-set_bits 4 0 d.key bits _ size (fill_bloom_mono entries (set_bits 4 0 d.key bits)))
  | inr other ↦
      check_bits-fill_bloom key entries (set_bits 4 0 d.key bits)
        (omega (arith, length-set_bits 4 0 d.key bits)) (rw other at h)
]

-- A key that a table was built with passes the table's filter.
pub check_bloom_filter-create_ss_table :
    (id level : ℕ) (entries : List Entry) (key : JsString) {e : Entry}
    → find_entry key entries ≡ some e
    → check_bloom_filter (create_ss_table id entries level) key ≡ true
unfolding check_bloom_filter create_ss_table
check_bloom_filter-create_ss_table id level entries key h =
    check_bits-fill_bloom key entries (replicate 64 false) (length-replicate 64 false) h
