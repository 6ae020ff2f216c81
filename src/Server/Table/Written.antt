-- ===== src/Server/Table/Written.antt =====
-- What go/pkg/lsm/sstable.go writes: entries in blocks, the filter of their keys, and the index.
use info_crate.Common.{
  ℕ, suc, ◌+◌, ◌≡◌, refl, ap, ◌∙◌, sym, arith, true, ◌⊎◌, List, [], ◌∷◌, ◌++◌, map, length, All,
  append_assoc, append-nil, leb, Bool-cases, inl, inr, if◌then◌else◌,
}
use info_crate.Text.{str_lt, unit_compare}
use info_crate.Server.Memtable.{Entry}
use info_crate.Server.Merge.Newest.{Ascends}
use info_crate.Server.Bloom
use info_crate.Server.Bloom.{BloomMath, new_bloom_filter}
use info_crate.Server.Bloom.Adding.{add_all}
use info_crate.Server.Table.{
  SsTableWriter, default_block_size, is_empty, encode_index, footer, flush_block, append_entry, add,
  add_entries, new_writer, finish, write_table,
}
use info_crate.Server.Table.Records.{encode_entries, encode_entries-snoc}
use info_crate.Server.Table.Layout.{
  concat, concat-snoc, encode_blocks, last_of, last_of-append, index_of, Wrote, flush_block-Wrote,
  IsFull, IsFull-snoc,
}

append_entry-Wrote :
    (math : BloomMath) (e : Entry) (blocks : List (List Entry)) (tail : List Entry)
    (w : SsTableWriter)
    → Wrote blocks tail w
    → Wrote blocks (tail ++ e ∷ []) (append_entry math e w)
unfolding append_entry
append_entry-Wrote math e blocks tail w h = record {
  on_disk = h.on_disk;
  in_memory = rw (h.in_memory, encode_entries-snoc) refl;
  indexed = h.indexed;
  at_end = h.at_end;
  full = h.full;
}

-- The writer holds the entries `done`, in blocks and a rest.
pub record Holds (done : List Entry) (w : SsTableWriter) : Type 0 where
  pub blocks : List (List Entry)
  pub tail : List Entry
  pub wrote : Wrote blocks tail w
  pub split : concat blocks ++ tail ≡ done

add-Holds :
    (math : BloomMath) (e : Entry) (done : List Entry) (w : SsTableWriter)
    → Holds done w
    → Holds (done ++ e ∷ []) (add math e w)
unfolding add
add-Holds math e done w h =
    let after = append_entry math e w in
    let appended = append_entry-Wrote math e h.blocks h.tail w h.wrote in
    let whole : concat h.blocks ++ (h.tail ++ e ∷ []) ≡ done ++ e ∷ [] =
      sym (append_assoc (concat h.blocks) h.tail (e ∷ []))
      ∙ ap (λ (d : List Entry). d ++ e ∷ []) h.split in
    elim (Bool-cases (leb default_block_size (length after.curr_block))) [
      | inl enough ↦ rw enough (record {
        blocks = h.blocks ++ (h.tail ++ e ∷ []) ∷ [];
        tail = [];
        wrote =
            flush_block-Wrote h.blocks (h.tail ++ e ∷ []) e.key after (IsFull-snoc h.tail e)
              appended (unfold last_of in sym (last_of-append h.tail e []));
        split = append-nil _ ∙ concat-snoc h.blocks (h.tail ++ e ∷ []) ∙ whole;
      })
      | inr room ↦
          rw room
            (record { blocks = h.blocks; tail = h.tail ++ e ∷ []; wrote = appended; split = whole })
    ]

add_entries-Holds :
    (math : BloomMath) (entries done : List Entry) (w : SsTableWriter)
    → Holds done w
    → Holds (done ++ entries) (add_entries math entries w)
unfolding add_entries
add_entries-Holds math [] done w h = rw append-nil h
add_entries-Holds math (e ∷ entries) done w h =
    rw (← append_assoc done (e ∷ []) entries)
      (add_entries-Holds math entries (done ++ e ∷ []) (add math e w) (add-Holds math e done w h))

abbrev key_of : Entry → List ℕ
key_of e = e.key

add_bloom :
    (math : BloomMath) (e : Entry) (w : SsTableWriter)
    → (add math e w).bloom ≡ Bloom.add math e.key w.bloom
unfolding add append_entry flush_block
add_bloom math e w = ground arith

pub add_entries_bloom :
    (math : BloomMath) (entries : List Entry) (w : SsTableWriter)
    → (add_entries math entries w).bloom ≡ add_all math (map (λ e. e.key) entries) w.bloom
unfolding add_entries add_all
add_entries_bloom math [] w = refl
add_entries_bloom math (e ∷ entries) w =
    add_entries_bloom math entries (add math e w)
    ∙ ap (add_all math (map (λ (d : Entry). d.key) entries)) (add_bloom math e w)

add_max_key :
    (math : BloomMath) (e : Entry) (w : SsTableWriter)
    → (add math e w).max_key ≡ (if str_lt w.max_key e.key then e.key else w.max_key)
unfolding add append_entry flush_block
add_max_key math e w = ground arith

-- With ascending keys the largest key is the last.
add_entries_max_key :
    (math : BloomMath) (e : Entry) (entries : List Entry) (w : SsTableWriter)
    → Ascends (e ∷ entries)
    → (str_lt w.max_key e.key ≡ true) ⊎ (w.max_key ≡ e.key)
    → (add_entries math (e ∷ entries) w).max_key ≡ last_of (e ∷ entries)
unfolding add_entries last_of
add_entries_max_key math e [] w o first = ground (arith, add_max_key math e w)
add_entries_max_key math e (d ∷ entries) w o first =
    let here : (add math e w).max_key ≡ e.key = ground (arith, add_max_key math e w) in
    add_entries_max_key math d entries (add math e w) o.1
      (inl (ap (λ (k : List ℕ). str_lt k d.key) here ∙ o.0.0))

above_empty : (k : List ℕ) → (str_lt [] k ≡ true) ⊎ ([] ≡ k)
above_empty [] = inr refl
above_empty (b ∷ k) = unfold unit_compare in inl refl

last_of-end : (xs ys : List Entry) → IsFull ys → last_of (xs ++ ys) ≡ last_of ys
last_of-end xs [] h = absurd (h refl)
last_of-end xs (e ∷ ys) h = last_of-append xs e ys

-- A file of full blocks of the entries, in their order, behind each other.
pub record Final (math : BloomMath) (entries : List Entry) : Type 0 where
  pub blocks : List (List Entry)
  pub filter : List ℕ
  pub filter_lem :
      filter
      ≡ Bloom.encode
          (add_all math (map (λ e. e.key) entries) (new_bloom_filter math (length entries)))
  pub split : concat blocks ≡ entries
  pub full : All IsFull blocks
  pub bytes :
      (write_table math entries).1
      ≡ encode_blocks blocks
        ++ (filter
            ++ (encode_index (index_of 0 blocks)
                ++ footer
                    (length (encode_blocks blocks))
                    (length filter)
                    (length (encode_blocks blocks) + length filter)
                    (length (encode_index (index_of 0 blocks)))))

flush_bloom : (last : List ℕ) (w : SsTableWriter) → (flush_block last w).bloom ≡ w.bloom
unfolding flush_block
flush_bloom last w = ground arith

Final-of :
    (math : BloomMath) (entries : List Entry) (w : SsTableWriter) (blocks : List (List Entry))
    → w ≡ add_entries math entries (new_writer math (length entries))
    → concat blocks ≡ entries
    → Wrote blocks [] (flush_block w.max_key w)
    → Final math entries
Final-of math entries w blocks same split wrote = record {
  blocks = blocks;
  filter = Bloom.encode w.bloom;
  filter_lem = ap Bloom.encode (
      ap (λ (v : SsTableWriter). v.bloom) same
      ∙ add_entries_bloom math entries (new_writer math (length entries))
      ∙ unfold new_writer in refl);
  split = split;
  full = wrote.full;
  bytes =
      unfold write_table finish in
      rw (sym same, flush_bloom w.max_key w, wrote.indexed, wrote.at_end, wrote.on_disk) refl;
}

Holds-Final :
    (math : BloomMath) (entries : List Entry) (w : SsTableWriter)
    → w ≡ add_entries math entries (new_writer math (length entries))
    → (blocks : List (List Entry)) (tail : List Entry) → Wrote blocks tail w
    → concat blocks ++ tail ≡ entries
    → (IsFull tail → w.max_key ≡ last_of tail)
    → Final math entries
Holds-Final math entries w same blocks [] wrote split largest =
    Final-of math entries w blocks same (sym (append-nil _) ∙ split) (flush_nothing w wrote)
  where
    flush_nothing :
        (w : SsTableWriter) → Wrote blocks [] w → Wrote blocks [] (flush_block w.max_key w)
    flush_nothing w h =
        let no_bytes : is_empty w.curr_block ≡ true =
          ap is_empty h.in_memory ∙ unfold encode_entries in refl in
        unfold flush_block in rw no_bytes h
Holds-Final math entries w same blocks (e ∷ tail) wrote split largest =
    Final-of math entries w (blocks ++ (e ∷ tail) ∷ []) same (concat-snoc blocks (e ∷ tail) ∙ split)
      (flush_block-Wrote blocks (e ∷ tail) w.max_key w (λ h. cc) wrote (largest (λ h. cc)))

largest_key :
    (math : BloomMath) (entries : List Entry)
    → Ascends entries
    → (add_entries math entries (new_writer math (length entries))).max_key ≡ last_of entries
largest_key math [] o = unfold add_entries last_of new_writer in refl
largest_key math (e ∷ entries) o =
    add_entries_max_key math e entries (new_writer math (suc (length entries))) o
      (unfold new_writer in above_empty e.key)

-- What a writer that is given ascending entries leaves in the file.
pub write_table-Final :
    (math : BloomMath) (entries : List Entry) → Ascends entries → Final math entries
write_table-Final math entries o =
    let w = add_entries math entries (new_writer math (length entries)) in
    let start : Holds [] (new_writer math (length entries)) =
      unfold new_writer encode_blocks encode_entries index_of in
      record {
        blocks = [];
        tail = [];
        wrote = record {
          on_disk = refl;
          in_memory = refl;
          indexed = refl;
          at_end = refl;
          full = tt;
        };
        split = refl;
      } in
    let held = add_entries-Holds math entries [] (new_writer math (length entries)) start in
    Holds-Final math entries w refl held.blocks held.tail held.wrote held.split (λ full.
      largest_key math entries o
      ∙ ap last_of (sym held.split)
      ∙ last_of-end (concat held.blocks) held.tail full)
