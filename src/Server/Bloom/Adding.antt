-- ===== src/Server/Bloom/Adding.antt =====
-- Keys added to the filter of go/pkg/lsm/bloom.go pass its check.
use info_crate.Common.{
  ℕ, zero, suc, ◌+◌, ◌/◌, ◌%◌, ◌^◌, ◌<◌, ◌≡◌, refl, ap, ◌∙◌, arith, Option, Bool, true, false, none,
  some, List, [], ◌∷◌, get_or, bit_and, ◌==◌, if◌then◌else◌, Bool-cases, inl, inr,
}
use info_crate.Text.{str_eq}
use info_crate.Text.Laws.{str_eq_iff}
use info_crate.Dict.{has}
use info_crate.Wal.Recover.{u32}
use info_crate.Server.Bloom.{
  BloomFilter, BloomMath, bit_index, add_loop, added, add, test_byte, contain_loop,
}
use info_crate.Server.Bloom.Bits.{
  IsSized, with_bit, set_bit-total, bit_at, with_bit-IsSized, bit_at-with_bit, bit_at-keeps,
  get_elem?-get_or,
}

module _ (math : BloomMath) where
  bit_index-lt :
      (key : List ℕ) (num_bits i : ℕ) → 0 < num_bits → bit_index math key num_bits i < num_bits
  unfolding bit_index
  bit_index-lt key num_bits i h = omega arith

  -- The array with the bits of all rounds set.
  unfoldable with_bits : ℕ → ℕ → List ℕ → ℕ → List ℕ → List ℕ
  with_bits zero i key num_bits bits = bits
  with_bits (suc n) i key num_bits bits =
      with_bits n (suc i) key num_bits (with_bit (bit_index math key num_bits i) bits)

  module _ (key : List ℕ) (num_bits : ℕ) (positive : 0 < num_bits) where
    with_bits-IsSized :
        (n i : ℕ) (bits : List ℕ)
        → IsSized num_bits bits
        → IsSized num_bits (with_bits n i key num_bits bits)
    unfolding with_bits
    with_bits-IsSized zero i bits s = s
    with_bits-IsSized (suc n) i bits s =
        let p = bit_index math key num_bits i in
        with_bits-IsSized n (suc i) (with_bit p bits)
          (with_bit-IsSized num_bits p bits s (bit_index-lt key num_bits i positive))

    -- No round is out of the array.
    add_loop-total :
        (n i : ℕ) (bits : List ℕ)
        → IsSized num_bits bits
        → add_loop math n i key num_bits bits ≡ some (with_bits n i key num_bits bits)
    unfolding add_loop with_bits
    add_loop-total zero i bits s = refl
    add_loop-total (suc n) i bits s =
        let p = bit_index math key num_bits i in
        let inside = bit_index-lt key num_bits i positive in
        ap
          (λ (o : Option (List ℕ)). elim o as (λ _. Option (List ℕ)) [
            | none ↦ none
            | some after ↦ add_loop math n (suc i) key num_bits after
          ])
          (set_bit-total num_bits p bits s inside)
        ∙ add_loop-total n (suc i) (with_bit p bits) (with_bit-IsSized num_bits p bits s inside)

    with_bits-keeps :
        (n i : ℕ) (bits : List ℕ) (q : ℕ)
        → IsSized num_bits bits
        → bit_at bits q ≡ true
        → bit_at (with_bits n i key num_bits bits) q ≡ true
    unfolding with_bits
    with_bits-keeps zero i bits q s h = h
    with_bits-keeps (suc n) i bits q s h =
        let p = bit_index math key num_bits i in
        let inside = bit_index-lt key num_bits i positive in
        with_bits-keeps n (suc i) (with_bit p bits) q (with_bit-IsSized num_bits p bits s inside)
          (bit_at-keeps num_bits p bits s inside q h)

    -- The check passes on any array that keeps the bits that the rounds set.
    contain_loop-with_bits :
        (n i : ℕ) (bits whole : List ℕ)
        → IsSized num_bits bits
        → IsSized num_bits whole
        → ((q : ℕ) → bit_at (with_bits n i key num_bits bits) q ≡ true → bit_at whole q ≡ true)
        → contain_loop math n i key num_bits whole ≡ some true
    unfolding contain_loop with_bits test_byte
    contain_loop-with_bits zero i bits whole s w keep = refl
    contain_loop-with_bits (suc n) i bits whole s w keep =
        let p = bit_index math key num_bits i in
        let inside = bit_index-lt key num_bits i positive in
        let after = with_bit-IsSized num_bits p bits s inside in
        let rest = contain_loop-with_bits n (suc i) (with_bit p bits) whole after w keep in
        let kept = keep p (
          with_bits-keeps n (suc i) (with_bit p bits) p after
            (bit_at-with_bit num_bits p bits s inside)) in
        rw (get_elem?-get_or whole (p / 8) (omega (arith, w.room)), rest) (ground (arith, kept))

  -- No index is out of the array.
  pub contain_loop-total :
      (key : List ℕ) (num_bits n i : ℕ) (bits : List ℕ)
      → 0 < num_bits
      → IsSized num_bits bits
      → (b : Bool) × (contain_loop math n i key num_bits bits ≡ some b)
  unfolding contain_loop
  contain_loop-total key num_bits zero i bits positive sized = (true, refl)
  contain_loop-total key num_bits (suc n) i bits positive sized =
      let p = bit_index math key num_bits i in
      let byte = get_or bits (p / 8) 0 in
      let rest = contain_loop-total key num_bits n (suc i) bits positive sized in
      let here =
        get_elem?-get_or bits (p / 8)
          (omega (arith, bit_index-lt key num_bits i positive, sized.room)) in
      (
        if bit_and byte (2 ^ (p % 8)) == 0 then false else rest.0,
        rw (here, rest.1) (test_byte_lem byte (p % 8) rest.0),
      )
    where
      test_byte_lem :
          (byte i : ℕ) (b : Bool)
          → test_byte (some byte) i (some b) ≡ some (if bit_and byte (2 ^ i) == 0 then false else b)
      test_byte_lem byte i b = unfold test_byte in ground arith

  -- The filter with the bits of all rounds set.
  abbrev with_key : List ℕ → BloomFilter → BloomFilter
  with_key key bf = record bf {
    bits = with_bits bf.num_hash 0 key bf.num_bits bf.bits;
    key_count = u32 (bf.key_count + 1);
  }

  -- A filter that is in use: no call of `Add` has panicked, and no later one will.
  pub record IsUsable (bf : BloomFilter) : Type 0 where
    pub runs : bf.panicked ≡ false
    pub positive : 0 < bf.num_bits
    pub sized : IsSized bf.num_bits bf.bits

  module _ (key : List ℕ) (bf : BloomFilter) (u : IsUsable bf) where
    add_lem : add math key bf ≡ with_key key bf
    unfolding add added
    add_lem =
        rw (u.runs, add_loop-total key bf.num_bits u.positive bf.num_hash 0 bf.bits u.sized) refl

    with_key-IsUsable : IsUsable (with_key key bf)
    with_key-IsUsable = record {
      runs = u.runs;
      positive = u.positive;
      sized = with_bits-IsSized key bf.num_bits u.positive bf.num_hash 0 bf.bits u.sized;
    }

    with_key-keeps : (q : ℕ) → bit_at bf.bits q ≡ true → bit_at (with_key key bf).bits q ≡ true
    with_key-keeps q h =
        with_bits-keeps key bf.num_bits u.positive bf.num_hash 0 bf.bits q u.sized h

  -- What calls of `Add` leave as it is.
  pub record Grows (before after : BloomFilter) : Type 0 where
    pub num_bits_same : after.num_bits ≡ before.num_bits
    pub num_hash_same : after.num_hash ≡ before.num_hash
    pub runs_on : after.panicked ≡ false
    pub still : IsSized before.num_bits after.bits
    pub keeps : (q : ℕ) → bit_at before.bits q ≡ true → bit_at after.bits q ≡ true
    pub key_count_fits : before.key_count < 2 ^ 32 → after.key_count < 2 ^ 32

  -- The filter after the keys are added, one after the other.
  unfoldable pub add_all : List (List ℕ) → BloomFilter → BloomFilter
  add_all [] bf = bf
  add_all (key ∷ keys) bf = add_all keys (add math key bf)

  pub add_all-Grows :
      (keys : List (List ℕ)) (bf : BloomFilter) → IsUsable bf → Grows bf (add_all keys bf)
  unfolding add_all
  add_all-Grows [] bf u = record {
    num_bits_same = refl;
    num_hash_same = refl;
    runs_on = u.runs;
    still = u.sized;
    keeps = λ q h. h;
    key_count_fits = λ h. h;
  }
  add_all-Grows (key ∷ keys) bf u =
      let step = add_all-Grows keys (with_key key bf) (with_key-IsUsable key bf u) in
      rw (add_lem key bf u) (record {
        num_bits_same = step.num_bits_same;
        num_hash_same = step.num_hash_same;
        runs_on = step.runs_on;
        still = step.still;
        keeps = λ q h. step.keeps q (with_key-keeps key bf u q h);
        key_count_fits = λ h. step.key_count_fits (omega arith);
      })

  -- A key that was added, among others, passes.
  pub contain_loop-add_all :
      (keys : List (List ℕ)) (q : List ℕ) (bf : BloomFilter)
      → IsUsable bf
      → has q keys ≡ true
      → contain_loop math bf.num_hash 0 q bf.num_bits (add_all keys bf).bits ≡ some true
  unfolding add_all has
  contain_loop-add_all [] q bf u h = cc
  contain_loop-add_all (key ∷ keys) q bf u h =
      let next = with_key-IsUsable key bf u in
      ap (λ (f : BloomFilter). contain_loop math bf.num_hash 0 q bf.num_bits (add_all keys f).bits)
        (add_lem key bf u)
      ∙ (elim (Bool-cases (str_eq key q)) [
        | inl same ↦
            let grows = add_all-Grows keys (with_key key bf) next in
            rw (← (str_eq_iff key q).0 same) (
              contain_loop-with_bits key bf.num_bits u.positive bf.num_hash 0 bf.bits _ u.sized
                grows.still grows.keeps)
        | inr other ↦ contain_loop-add_all keys q (with_key key bf) next (rw other at h)
      ])
