-- ===== src/Server/Table/Index.antt =====
-- The index block and the footer of go/pkg/lsm/sstable.go, written and read.
use info_crate.Common.{
  ℕ, zero, suc, ◌+◌, ◌-◌, ◌^◌, ◌≤◌, ◌<◌, ◌≡◌, refl, ap, ◌∙◌, sym, arith, some, List, [], ◌∷◌, ◌++◌,
  length, take, drop, All, length-append, take-append, drop-append, append_assoc,
}
use info_crate.Wal.{le_bytes}
use info_crate.Wal.Recover.{le_value}
use info_crate.Wal.RoundTrip.{le_value-le_bytes}
use info_crate.Server.Bloom
use info_crate.Server.Bloom.{BloomFilter}
use info_crate.Server.Table.{IndexEntry, encode_index, footer, ss_table_magic_number}
use info_crate.Server.Table.Reader.{
  index_loop, read_at, last_key_of, opened, open_blocks, open_reader,
}

pub record IndexFits (ie : IndexEntry) : Type 0 where
  pub key_size : length ie.last_key < 2 ^ 16
  pub offset_fits : ie.offset < 2 ^ 64
  pub length_fits : ie.length < 2 ^ 64

module _ (bytes key rest : List ℕ) {at size : ℕ} (fuel : ℕ) (whole : 18 ≤ length bytes)
    (key_size : le_value (take 2 bytes) ≡ length key)
    (offset_bytes : le_value (take 8 (drop 2 bytes)) ≡ at)
    (length_bytes : le_value (take 8 (drop 10 bytes)) ≡ size)
    (data_bytes : drop 18 bytes ≡ key ++ rest) where
  index_loop_lem :
      index_loop (suc fuel) bytes
      ≡ record { last_key = key; offset = at; length = size } ∷ index_loop fuel rest
  unfolding index_loop
  index_loop_lem =
      rw
        (
          key_size,
          offset_bytes,
          length_bytes,
          data_bytes,
          take-append key rest,
          drop-append key rest,
        )
        (ground (arith, length-append key rest, whole))

pub index_loop-encode_index :
    (fuel : ℕ) (index : List IndexEntry)
    → length index ≤ fuel
    → All IndexFits index
    → index_loop fuel (encode_index index) ≡ index
index_loop-encode_index zero [] enough fits = unfold index_loop in refl
index_loop-encode_index (suc fuel) [] enough fits = unfold index_loop encode_index in refl
index_loop-encode_index zero (ie ∷ index) enough fits = absurd (omega arith)
index_loop-encode_index (suc fuel) (ie ∷ index) enough fits =
    index_step fuel ie index fits.0
    ∙ ap (◌∷◌ ie) (index_loop-encode_index fuel index (omega arith) fits.1)
  where
    index_step :
        (fuel : ℕ) (ie : IndexEntry) (index : List IndexEntry)
        → IndexFits ie
        → index_loop (suc fuel) (encode_index (ie ∷ index))
          ≡ ie ∷ index_loop fuel (encode_index index)
    index_step fuel ie index fits =
        unfold encode_index le_bytes in
        index_loop_lem (encode_index (ie ∷ index)) ie.last_key (encode_index index) fuel
          (omega arith) (le_value-le_bytes 2 (length ie.last_key) (omega (arith, fits.key_size)))
          (le_value-le_bytes 8 ie.offset (omega (arith, fits.offset_fits)))
          (le_value-le_bytes 8 ie.length (omega (arith, fits.length_fits))) refl

pub length-encode_index : (index : List IndexEntry) → length index ≤ length (encode_index index)
unfolding encode_index le_bytes
length-encode_index [] = omega arith
length-encode_index (ie ∷ index) =
    omega (arith, length-encode_index index, length-append ie.last_key (encode_index index))

pub read_at_lem :
    (pre block post : List ℕ)
    → read_at (length pre) (length block) (pre ++ (block ++ post)) ≡ some block
unfolding read_at
read_at_lem pre block post =
    rw (drop-append pre (block ++ post), take-append block post)
      (ground (arith, length-append pre (block ++ post), length-append block post))

module _ (file foot : List ℕ) {filter_at filter_size index_at index_size : ℕ}
    (whole : 40 ≤ length file) (tail : drop (length file - 40) file ≡ foot)
    (w1 : le_value (take 8 foot) ≡ filter_at) (w2 : le_value (take 8 (drop 8 foot)) ≡ filter_size)
    (w3 : le_value (take 8 (drop 16 foot)) ≡ index_at)
    (w4 : le_value (take 8 (drop 24 foot)) ≡ index_size)
    (w5 : le_value (take 8 (drop 32 foot)) ≡ ss_table_magic_number) where
  open_footer :
      open_reader file
      ≡ open_blocks file (read_at filter_at filter_size file) (read_at index_at index_size file)
  unfolding open_reader
  open_footer = rw (tail, w1, w2, w3, w4, w5) (ground (arith, whole))

open_blocks_lem :
    (file filter : List ℕ) (index : List IndexEntry) (bf : BloomFilter)
    → Bloom.decode filter ≡ some bf
    → All IndexFits index
    → open_blocks file (some filter) (some (encode_index index))
      ≡ some (record {
        file = file;
        min_key = [];
        max_key = last_key_of index;
        bloom = bf;
        index_entries = index;
      })
unfolding open_blocks
open_blocks_lem file filter index bf opens fits =
    rw (opens, index_loop-encode_index _ index (length-encode_index index) fits, opened) refl

drop_to : (n : ℕ) (pre post : List ℕ) → n ≡ length pre → drop n (pre ++ post) ≡ post
drop_to n pre post e = ap (λ (k : ℕ). drop k (pre ++ post)) e ∙ drop-append pre post

front_lem : (w x y z : List ℕ) → (w ++ (x ++ y)) ++ z ≡ w ++ (x ++ (y ++ z))
front_lem w x y z = append_assoc w (x ++ y) z ∙ ap (◌++◌ w) (append_assoc x y z)

length-footer : (a b c d : ℕ) → length (footer a b c d) ≡ 40
unfolding footer le_bytes
length-footer a b c d = refl

index_read_lem :
    (w x y z : List ℕ) → read_at (length w + length x) (length y) (w ++ (x ++ (y ++ z))) ≡ some y
index_read_lem w x y z =
    rw (sym (length-append w x), sym (append_assoc w x (y ++ z))) (read_at_lem (w ++ x) y z)

footer_words :
    (a b c d : ℕ)
    → a < 2 ^ 64
    → b < 2 ^ 64
    → c < 2 ^ 64
    → d < 2 ^ 64
    → (le_value (take 8 (footer a b c d)) ≡ a)
      × (le_value (take 8 (drop 8 (footer a b c d))) ≡ b)
      × (le_value (take 8 (drop 16 (footer a b c d))) ≡ c)
      × (le_value (take 8 (drop 24 (footer a b c d))) ≡ d)
      × (le_value (take 8 (drop 32 (footer a b c d))) ≡ ss_table_magic_number)
unfolding footer le_bytes
footer_words a b c d p q r s = (
  le_value-le_bytes 8 a p,
  le_value-le_bytes 8 b q,
  le_value-le_bytes 8 c r,
  le_value-le_bytes 8 d s,
  le_value-le_bytes 8 ss_table_magic_number (omega arith),
)

-- A file in the layout of the writer opens, and has the filter and the index that were written.
pub open_reader_lem :
    (blocks filter : List ℕ) (index : List IndexEntry) (bf : BloomFilter)
    → Bloom.decode filter ≡ some bf
    → All IndexFits index
    → length blocks + length filter + length (encode_index index) < 2 ^ 64
    → open_reader (
        blocks
        ++ (filter
            ++ (encode_index index
                ++ footer
                    (length blocks)
                    (length filter)
                    (length blocks + length filter)
                    (length (encode_index index)))))
      ≡ some (record {
        file =
            blocks
            ++ (filter
                ++ (encode_index index
                    ++ footer
                        (length blocks)
                        (length filter)
                        (length blocks + length filter)
                        (length (encode_index index))));
        min_key = [];
        max_key = last_key_of index;
        bloom = bf;
        index_entries = index;
      })
open_reader_lem blocks filter index bf opens fits size =
    let a = length blocks in
    let b = length filter in
    let index_bytes = encode_index index in
    let c = length index_bytes in
    let foot = footer a b (a + b) c in
    let file = blocks ++ (filter ++ (index_bytes ++ foot)) in
    let data_bytes = blocks ++ (filter ++ index_bytes) in
    let front : data_bytes ++ foot ≡ file = front_lem blocks filter index_bytes foot in
    let total : length file ≡ length data_bytes + 40 = omega (
      arith,
      ap (length {A = ℕ}) front,
      length-append data_bytes foot,
      length-footer a b (a + b) c,
    ) in
    let inner : length data_bytes ≡ a + b + c =
      omega
        (arith, length-append blocks (filter ++ index_bytes), length-append filter index_bytes) in
    let tail : drop (length file - 40) file ≡ foot =
      ap (drop (length file - 40)) (sym front)
      ∙ drop_to (length file - 40) data_bytes foot (omega (arith, total)) in
    let index_read : read_at (a + b) c file ≡ some index_bytes =
      index_read_lem blocks filter index_bytes foot in
    let words =
      footer_words a b (a + b) c (omega (arith, size)) (omega (arith, size)) (omega (arith, size))
        (omega (arith, size)) in
    open_footer file foot {filter_at = a} {filter_size = b} {index_at = a + b} {index_size = c}
      (omega (arith, total)) tail words.0 words.1 words.2 words.3 words.4
    ∙ rw (read_at_lem blocks filter (index_bytes ++ foot), index_read)
        (open_blocks_lem file filter index bf opens fits)
