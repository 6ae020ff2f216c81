-- ===== src/Server/Bloom/Bits.antt =====
-- Bits of bytes, as `|=` and `&` of go/pkg/lsm/bloom.go set and read them.
use info_crate.Common.{
  ℕ, zero, suc, ◌*◌, ◌/◌, ◌%◌, ◌^◌, ◌≤◌, ◌<◌, ◌≡◌, refl, arith, Bool, true, false, ◌&&◌, ◌||◌, not,
  some, List, [], ◌∷◌, length, set, get_elem?, get_or, bit_and, bit_or, ltb, ltb→lt, ◌==◌, ==_iff,
  if◌then◌else◌, All, length-set, Bool-cases, inl, inr,
}
use info_crate.Server.Bloom.{set_byte, set_bit}

-- Every number below a bound passes a test.
abbrev all_below : ℕ → (ℕ → Bool) → Bool
all_below zero p = true
all_below (suc n) p = p n && all_below n p

all_below_lem : (n : ℕ) (p : ℕ → Bool) (x : ℕ) → all_below n p ≡ true → x < n → p x ≡ true
all_below_lem zero p x h lt = absurd (omega arith)
all_below_lem (suc n) p x h lt = ground (arith, all_below_lem n p x)

abbrev pub has_bit : ℕ → ℕ → Bool
has_bit byte i = not (bit_and byte (2 ^ i) == 0)

-- Setting bit `i` of a byte.
abbrev sets : ℕ → ℕ → Bool
sets i byte =
    let after = bit_or byte (2 ^ i) in
    ltb after 256 && has_bit after i && all_below 8 (λ j. not (has_bit byte j) || has_bit after j)

sets_table : all_below 8 (λ i. all_below 256 (sets i)) ≡ true
sets_table = refl

both : (a b : Bool) → (a && b) ≡ true → (a ≡ true) × (b ≡ true)
both true b h = (refl, h)
both false b h = cc

implied : (a b : Bool) → (not a || b) ≡ true → a ≡ true → b ≡ true
implied a b h p = ground arith

module _ (byte i : ℕ) (small : byte < 256) (low : i < 8) where
  set_all : sets i byte ≡ true
  set_all =
      all_below_lem 256 (sets i) byte
        (all_below_lem 8 (λ k. all_below 256 (sets k)) i sets_table low) small

  or_byte : bit_or byte (2 ^ i) < 256
  or_byte = ltb→lt (bit_or byte (2 ^ i)) 256 (both _ _ (both _ _ set_all).0).0

  set_self : has_bit (bit_or byte (2 ^ i)) i ≡ true
  set_self = (both _ _ (both _ _ set_all).0).1

  set_keeps : (j : ℕ) → j < 8 → has_bit byte j ≡ true → has_bit (bit_or byte (2 ^ i)) j ≡ true
  set_keeps j p = implied (has_bit byte j) (has_bit (bit_or byte (2 ^ i)) j) (
      all_below_lem 8 (λ k. not (has_bit byte k) || has_bit (bit_or byte (2 ^ i)) k) j
        (both _ _ set_all).1 p)

-- The filter's bit `p`.
abbrev pub bit_at : List ℕ → ℕ → Bool
bit_at bits p = has_bit (get_or bits (p / 8) 0) (p % 8)

abbrev pub IsByte : ℕ → Type 0
IsByte b = b < 256

get_or-set :
    (xs : List ℕ) (i j v : ℕ)
    → i < length xs
    → get_or (set xs i v) j 0 ≡ (if i == j then v else get_or xs j 0)
get_or-set [] i j v h = elim h [ ]
get_or-set (x ∷ xs) zero zero v h = refl
get_or-set (x ∷ xs) zero (suc j) v h = ground arith
get_or-set (x ∷ xs) (suc i) zero v h = ground arith
get_or-set (x ∷ xs) (suc i) (suc j) v h = ground (arith, get_or-set xs i j v (omega arith))

All-get_or : (xs : List ℕ) (i : ℕ) → All IsByte xs → get_or xs i 0 < 256
All-get_or [] i h = omega arith
All-get_or (x ∷ xs) zero h = h.0
All-get_or (x ∷ xs) (suc i) h = All-get_or xs i h.1

All-set : (xs : List ℕ) (i v : ℕ) → v < 256 → All IsByte xs → All IsByte (set xs i v)
All-set [] i v p h = tt
All-set (x ∷ xs) zero v p h = (p, h.1)
All-set (x ∷ xs) (suc i) v p h = (h.0, All-set xs i v p h.1)

pub get_elem?-get_or : (xs : List ℕ) (i : ℕ) → i < length xs → get_elem? xs i ≡ some (get_or xs i 0)
get_elem?-get_or [] i h = elim h [ ]
get_elem?-get_or (x ∷ xs) zero h = refl
get_elem?-get_or (x ∷ xs) (suc i) h = get_elem?-get_or xs i (omega arith)

-- The array with bit `p` set, within the array.
unfoldable pub with_bit : ℕ → List ℕ → List ℕ
with_bit p bits = set bits (p / 8) (bit_or (get_or bits (p / 8) 0) (2 ^ (p % 8)))

-- The array has a byte for each bit.
pub record IsSized (num_bits : ℕ) (bits : List ℕ) : Type 0 where
  pub room : num_bits ≤ 8 * length bits
  pub bytes : All IsByte bits

module _ (num_bits p : ℕ) (bits : List ℕ) (sized : IsSized num_bits bits)
    (inside : p < num_bits) where
  pub with_bit-IsSized : IsSized num_bits (with_bit p bits)
  unfolding with_bit
  with_bit-IsSized = record {
    room =
        omega (
          arith,
          sized.room,
          length-set bits (p / 8) (bit_or (get_or bits (p / 8) 0) (2 ^ (p % 8))),
        );
    bytes =
        All-set bits (p / 8) (bit_or (get_or bits (p / 8) 0) (2 ^ (p % 8)))
          (or_byte (get_or bits (p / 8) 0) (p % 8) (All-get_or bits (p / 8) sized.bytes)
            (omega arith))
          sized.bytes;
  }

  pub bit_at-with_bit : bit_at (with_bit p bits) p ≡ true
  unfolding with_bit
  bit_at-with_bit =
      rw
        (
          get_or-set bits (p / 8) (p / 8) (bit_or (get_or bits (p / 8) 0) (2 ^ (p % 8)))
              (omega (arith, sized.room)),
          (==_iff (p / 8) (p / 8)).1 refl,
        )
        (set_self (get_or bits (p / 8) 0) (p % 8) (All-get_or bits (p / 8) sized.bytes)
          (omega arith))

  pub bit_at-keeps : (q : ℕ) → bit_at bits q ≡ true → bit_at (with_bit p bits) q ≡ true
  unfolding with_bit
  bit_at-keeps q h =
      let old = get_or bits (p / 8) 0 in
      rw (get_or-set bits (p / 8) (q / 8) (bit_or old (2 ^ (p % 8))) (omega (arith, sized.room)))
        (elim (Bool-cases (p / 8 == q / 8)) [
          | inl same ↦ rw same (
              set_keeps old (p % 8) (All-get_or bits (p / 8) sized.bytes) (omega arith) (q % 8)
                (omega arith) (rw ((==_iff (p / 8) (q / 8)).0 same) h))
          | inr other ↦ rw other h
        ])

  -- No index is out of the array.
  pub set_bit-total : set_bit p bits ≡ some (with_bit p bits)
  unfolding set_bit set_byte with_bit
  set_bit-total = rw (get_elem?-get_or bits (p / 8) (omega (arith, sized.room))) refl
