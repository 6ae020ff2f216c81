-- ===== src/Server/Table/RoundTrip.antt =====
-- A table that go/pkg/lsm/sstable.go writes, opened and read.
use info_crate.Common.{
  ℕ, ◌+◌, ◌^◌, ◌<◌, ◌≡◌, refl, ap, ◌∙◌, sym, arith, Bool, true, false, some, List, [], ◌∷◌, ◌++◌,
  map, length, All, length-append, subst, Option-cases, inl, inr,
}
use info_crate.Dict.{has}
use info_crate.Server.Memtable.{Entry}
use info_crate.Server.Merge.Order.{find_entry}
use info_crate.Server.Merge.Newest.{Ascends}
use info_crate.Server.Bloom
use info_crate.Server.Bloom.{BloomMath, BloomFilter, new_bloom_filter, may_contain}
use info_crate.Server.Bloom.Adding.{add_all}
use info_crate.Server.Bloom.NoFalseNegative.{
  MathFits, decode-add_all, may_contain-add_all, may_contain-total,
}
use info_crate.Server.Table.{encode_index, footer, write_table}
use info_crate.Server.Table.Reader.{
  SsTableReader, open_reader, last_key_of, scan_blocks, scan_all, get_checked, get, get_block,
  search,
}
use info_crate.Server.Table.Records.{EntryFits, read_back}
use info_crate.Server.Table.Index.{open_reader_lem}
use info_crate.Server.Table.Layout.{concat, encode_blocks, index_of}
use info_crate.Server.Table.Written.{Final, write_table-Final}
use info_crate.Server.Table.Scan.{index_of-IndexFits, scan_blocks_lem}
use info_crate.Server.Table.Lookup.{told, get_block_lem}

-- Entries that a table can take: their keys ascend, and every size fits its field.
pub record TableFits (math : BloomMath) (entries : List Entry) : Type 0 where
  pub ascends : Ascends entries
  pub entries_fit : All EntryFits entries
  pub filter_fits : MathFits math (length entries)
  pub file_fits : length (write_table math entries).1 < 2 ^ 64

abbrev keys_of : List Entry → List (List ℕ)
keys_of entries = map (λ e. e.key) entries

-- The reader that opening the written file yields.
abbrev pub reader_of :
    (math : BloomMath) (entries : List Entry) → Final math entries → SsTableReader
reader_of math entries final = record {
  file = (write_table math entries).1;
  min_key = [];
  max_key = last_key_of (index_of 0 final.blocks);
  bloom = add_all math (keys_of entries) (new_bloom_filter math (length entries));
  index_entries = index_of 0 final.blocks;
}

find_entry-has :
    (q : List ℕ) (entries : List Entry) (e : Entry)
    → find_entry q entries ≡ some e
    → has q (keys_of entries) ≡ true
unfolding find_entry has
find_entry-has q [] e h = cc
find_entry-has q (d ∷ entries) e h = ground (arith, find_entry-has q entries e)

module _ (math : BloomMath) (entries : List Entry) (fits : TableFits math entries) where
  pub final : Final math entries
  final = write_table-Final math entries fits.ascends

  written_size :
      length (encode_blocks final.blocks)
        + length final.filter
        + length (encode_index (index_of 0 final.blocks))
      < 2 ^ 64
  written_size =
      let blocks = encode_blocks final.blocks in
      let index = encode_index (index_of 0 final.blocks) in
      let foot =
        footer (length blocks) (length final.filter) (length blocks + length final.filter)
          (length index) in
      omega (
        arith,
        fits.file_fits,
        ap (length {A = ℕ}) final.bytes,
        length-append blocks (final.filter ++ (index ++ foot)),
        length-append final.filter (index ++ foot),
        length-append index foot,
      )

  blocks_fit : All EntryFits (concat final.blocks)
  blocks_fit = subst (All EntryFits) (sym final.split) fits.entries_fit

  -- The file opens.
  pub open_written : open_reader (write_table math entries).1 ≡ some (reader_of math entries final)
  open_written =
      subst
        (λ (f : List ℕ). open_reader f ≡ some (record (reader_of math entries final) { file = f }))
        (sym final.bytes)
        (open_reader_lem (encode_blocks final.blocks) final.filter (index_of 0 final.blocks)
          (add_all math (keys_of entries) (new_bloom_filter math (length entries)))
          (ap Bloom.decode final.filter_lem
            ∙ decode-add_all math (length entries) (keys_of entries) fits.filter_fits)
          (index_of-IndexFits 0 final.blocks blocks_fit (omega (arith, written_size))) written_size)

  -- Every entry comes back from the blocks.
  scan_written : scan_all (reader_of math entries final) ≡ some (map read_back entries)
  scan_written =
      unfold scan_all in
      ap (λ (f : List ℕ). scan_blocks f (index_of 0 final.blocks)) final.bytes
      ∙ scan_blocks_lem final.blocks [] _ blocks_fit
      ∙ ap (λ (es : List Entry). some (map read_back es)) final.split

  block_written :
      (q : List ℕ)
      → get_block q (reader_of math entries final) (search q (index_of 0 final.blocks))
        ≡ some (told (find_entry q entries))
  block_written q =
      get_block_lem q (reader_of math entries final) final.blocks [] _ final.bytes final.full
        blocks_fit (subst Ascends (sym final.split) fits.ascends)
      ∙ ap (λ (es : List Entry). some (told (find_entry q es))) final.split

  get_checked_lem :
      (q : List ℕ) (b : Bool)
      → may_contain math q (reader_of math entries final).bloom ≡ some b
      → get math q (reader_of math entries final) ≡ some (told (find_entry q entries))
  get_checked_lem q true passes = unfold get in rw (passes, get_checked) (block_written q)
  get_checked_lem q false refused = elim (Option-cases (find_entry q entries)) [
    | inl absent ↦ unfold get in rw (refused, absent, get_checked) refl
    | inr hit ↦
        let passes =
          (may_contain-add_all math (length entries) (keys_of entries) q fits.filter_fits
            (find_entry-has q entries hit.0 hit.1)).2 in
        cc
  ]

  pub get_written :
      (q : List ℕ) → get math q (reader_of math entries final) ≡ some (told (find_entry q entries))
  get_written q =
      let checked = may_contain-total math (length entries) (keys_of entries) q fits.filter_fits in
      get_checked_lem q checked.0 checked.1

-- A table of ascending entries whose sizes fit their fields is opened without an error after it was
-- written, with a filter of any size that fits its 32 bits, and `ScanAll` yields the entries in their
-- order, with a tombstone's value gone.
pub scan_all-write_table :
    (math : BloomMath) (entries : List Entry)
    → TableFits math entries
    → (r : SsTableReader) × (open_reader (write_table math entries).1 ≡ some r)
      × (scan_all r ≡ some (map read_back entries))
scan_all-write_table math entries fits = (
  reader_of math entries (final math entries fits),
  open_written math entries fits,
  scan_written math entries fits,
)

-- In a table of ascending entries whose sizes fit their fields, written and opened, `Get` returns
-- without an error for every key: the value and mark of the entry of the key if there is one, else
-- nothing, though it only reads the one block that the index names, if the filter passes the key.
pub get-write_table :
    (math : BloomMath) (entries : List Entry) (q : List ℕ)
    → TableFits math entries
    → (r : SsTableReader) × (open_reader (write_table math entries).1 ≡ some r)
      × (get math q r ≡ some (told (find_entry q entries)))
get-write_table math entries q fits = (
  reader_of math entries (final math entries fits),
  open_written math entries fits,
  get_written math entries fits q,
)
