-- ===== src/Hash/Crc.antt =====
-- The table-driven checksum of src/engine/crc32.ts next to the bitwise CRC-32.
use info_crate.Common.{
  ℕ, zero, suc, ◌+◌, ◌*◌, ◌/◌, ◌%◌, ◌^◌, ◌<◌, ◌≡◌, refl, ap, ◌∙◌, sym, arith, bit_xor, List, [],
  ◌∷◌, All, get_or, ◌≡⟨◌⟩◌, ◌∎,
}
use native.Mathlib.Nat.{pow-suc}
use info_crate.Hash.{
  polynomial, crc_round, crc_rounds, table_from, crc32_table, crc_step, crc_loop, crc32_ieee,
}
use info_crate.Hash.Xor.{
  bit_xor_step, bit_xor_comm, bit_xor_assoc, bit_xor_self, bit_xor-zero, zero-bit_xor, bit_xor-div,
  bit_xor-mod, bit_xor-lt,
}

-- The definition of the standard: the byte is added to the low end, and eight rounds follow.
abbrev pub bitwise_step : ℕ → ℕ → ℕ
bitwise_step crc b = crc_rounds 8 (bit_xor crc b)

unfoldable pub bitwise_loop : ℕ → List ℕ → ℕ
bitwise_loop crc [] = crc
bitwise_loop crc (b ∷ bytes) = bitwise_loop (bitwise_step crc b) bytes

-- A round is linear.
swap_middle : (p a b : ℕ) → bit_xor p (bit_xor a b) ≡ bit_xor (bit_xor p a) b
swap_middle p a b = sym (bit_xor_assoc p a b)

cancel_twice : (p a b : ℕ) → bit_xor (bit_xor p a) (bit_xor p b) ≡ bit_xor a b
cancel_twice p a b =
    bit_xor (bit_xor p a) (bit_xor p b)
    ≡⟨ ap (λ (t : ℕ). bit_xor t (bit_xor p b)) (bit_xor_comm p a) ⟩
      bit_xor (bit_xor a p) (bit_xor p b)
    ≡⟨ bit_xor_assoc a p (bit_xor p b) ⟩ bit_xor a (bit_xor p (bit_xor p b))
    ≡⟨ ap (bit_xor a) (sym (bit_xor_assoc p p b)) ⟩ bit_xor a (bit_xor (bit_xor p p) b)
    ≡⟨ ap (λ (t : ℕ). bit_xor a (bit_xor t b)) (bit_xor_self p) ⟩ bit_xor a (bit_xor 0 b)
    ≡⟨ ap (bit_xor a) (zero-bit_xor b) ⟩ bit_xor a b ∎

left_comm : (p a b : ℕ) → bit_xor a (bit_xor p b) ≡ bit_xor p (bit_xor a b)
left_comm p a b =
    sym (bit_xor_assoc a p b) ∙ ap (λ (t : ℕ). bit_xor t b) (bit_xor_comm a p) ∙ bit_xor_assoc p a b

crc_round-bit_xor : (a b : ℕ) → crc_round (bit_xor a b) ≡ bit_xor (crc_round a) (crc_round b)
unfolding crc_round
crc_round-bit_xor a b = ground (
  arith,
  bit_xor-mod a b,
  bit_xor-div a b,
  swap_middle polynomial (a / 2) (b / 2),
  cancel_twice polynomial (a / 2) (b / 2),
  left_comm polynomial (a / 2) (b / 2),
)

crc_rounds-bit_xor :
    (j a b : ℕ) → crc_rounds j (bit_xor a b) ≡ bit_xor (crc_rounds j a) (crc_rounds j b)
unfolding crc_rounds
crc_rounds-bit_xor zero a b = refl
crc_rounds-bit_xor (suc j) a b =
    ap (crc_rounds j) (crc_round-bit_xor a b) ∙ crc_rounds-bit_xor j (crc_round a) (crc_round b)

mul-two-pow-suc : (x j : ℕ) → x * 2 ^ suc j ≡ 2 * (x * 2 ^ j)
mul-two-pow-suc x j = omega (arith, ap (λ (t : ℕ). x * t) (pow-suc 2 j))

crc_round_double : (x : ℕ) → crc_round (2 * x) ≡ x
unfolding crc_round
crc_round_double x = ground arith

-- Low bits that are zero are only shifted out.
crc_rounds_shift : (j x : ℕ) → crc_rounds j (x * 2 ^ j) ≡ x
unfolding crc_rounds
crc_rounds_shift zero x = omega arith
crc_rounds_shift (suc j) x =
    ap (λ (t : ℕ). crc_rounds j (crc_round t)) (mul-two-pow-suc x j)
    ∙ ap (crc_rounds j) (crc_round_double (x * 2 ^ j))
    ∙ crc_rounds_shift j x

-- Exclusive or of two disjoint fields is their sum.
bit_xor_fields : (j q r : ℕ) → r < 2 ^ j → bit_xor (q * 2 ^ j) r ≡ q * 2 ^ j + r
bit_xor_fields zero q r fits = ground (arith, bit_xor-zero q)
bit_xor_fields (suc j) q r fits = ground (
  arith,
  bit_xor_step (q * 2 ^ suc j) r,
  mul-two-pow-suc q j,
  bit_xor_fields j q (r / 2) (omega (arith, pow-suc 2 j)),
)

get_or-table_from : (n i k : ℕ) → k < n → get_or (table_from n i) k 0 ≡ crc_rounds 8 (i + k)
unfolding table_from
get_or-table_from zero i k h = elim h [ ]
get_or-table_from (suc n) i zero h = ap (crc_rounds 8) (omega arith)
get_or-table_from (suc n) i (suc k) h =
    get_or-table_from n (suc i) k (omega arith) ∙ ap (crc_rounds 8) (omega arith)

get_or-crc32_table : (k : ℕ) → k < 256 → get_or crc32_table k 0 ≡ crc_rounds 8 k
unfolding crc32_table
get_or-crc32_table k h = get_or-table_from 256 0 k h ∙ ap (crc_rounds 8) (omega arith)

module _ (crc b : ℕ) (byte : b < 2 ^ 8) where
  low : ℕ
  low = bit_xor (crc % 256) b

  low-lt : low < 2 ^ 8
  unfolding low
  low-lt = bit_xor-lt 8 (crc % 256) b (omega arith) byte

  -- The register and the byte, with the high 24 bits apart.
  bit_xor-byte : bit_xor crc b ≡ bit_xor (crc / 256 * 2 ^ 8) low
  unfolding low
  bit_xor-byte =
      ap (λ (t : ℕ). bit_xor t b)
        (omega (arith, bit_xor_fields 8 (crc / 256) (crc % 256) (omega arith)))
      ∙ bit_xor_assoc (crc / 256 * 2 ^ 8) (crc % 256) b

  table_index : bit_xor crc b % 256 ≡ low
  table_index = omega (arith, bit_xor-byte, bit_xor_fields 8 (crc / 256) low low-lt, low-lt)

  crc_step-eq-bitwise_step : crc_step crc b ≡ bitwise_step crc b
  unfolding crc_step
  crc_step-eq-bitwise_step =
      bit_xor (get_or crc32_table (bit_xor crc b % 256) 0) (crc / 256)
      ≡⟨ ap (λ (t : ℕ). bit_xor (get_or crc32_table t 0) (crc / 256)) table_index ⟩
        bit_xor (get_or crc32_table low 0) (crc / 256)
      ≡⟨ ap (λ (t : ℕ). bit_xor t (crc / 256)) (get_or-crc32_table low low-lt) ⟩
        bit_xor (crc_rounds 8 low) (crc / 256)
      ≡⟨ bit_xor_comm (crc_rounds 8 low) (crc / 256) ⟩ bit_xor (crc / 256) (crc_rounds 8 low)
      ≡⟨ ap (λ (t : ℕ). bit_xor t (crc_rounds 8 low)) (sym (crc_rounds_shift 8 (crc / 256))) ⟩
        bit_xor (crc_rounds 8 (crc / 256 * 2 ^ 8)) (crc_rounds 8 low)
      ≡⟨ sym (crc_rounds-bit_xor 8 (crc / 256 * 2 ^ 8) low) ⟩
        crc_rounds 8 (bit_xor (crc / 256 * 2 ^ 8) low)
      ≡⟨ ap (crc_rounds 8) (sym bit_xor-byte) ⟩ bitwise_step crc b ∎

crc_loop-eq-bitwise_loop :
    (crc : ℕ) (bytes : List ℕ)
    → All (λ b. b < 256) bytes
    → crc_loop crc bytes ≡ bitwise_loop crc bytes
unfolding crc_loop bitwise_loop
crc_loop-eq-bitwise_loop crc [] h = refl
crc_loop-eq-bitwise_loop crc (b ∷ bytes) h =
    ap (λ (t : ℕ). crc_loop t bytes) (crc_step-eq-bitwise_step crc b h.0)
    ∙ crc_loop-eq-bitwise_loop (bitwise_step crc b) bytes h.1

-- On any bytes the checksum by table look-up is the CRC-32 that is computed bit by bit from the
-- reversed polynomial, with the register and the result complemented.
pub crc32_ieee-eq-bitwise_loop :
    (bytes : List ℕ)
    → All (λ b. b < 256) bytes
    → crc32_ieee bytes ≡ bit_xor (bitwise_loop 0xffff_ffff bytes) 0xffff_ffff
unfolding crc32_ieee
crc32_ieee-eq-bitwise_loop bytes h =
    ap (λ (t : ℕ). bit_xor t 0xffff_ffff) (crc_loop-eq-bitwise_loop 0xffff_ffff bytes h)
