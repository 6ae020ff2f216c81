-- ===== src/Server/Table/Scan.antt =====
-- The table files of go/pkg/lsm/sstable.go, written, opened and read.
use info_crate.Common.{
  ℕ, ◌+◌, ◌^◌, ◌<◌, ◌≡◌, refl, ap, ◌∙◌, sym, arith, some, List, [], ◌∷◌, ◌++◌, map, length, All,
  length-append, append_assoc, map-append,
}
use info_crate.Server.Memtable.{Entry}
use info_crate.Server.Table.Reader.{read_at, scan_block, scan_blocks}
use info_crate.Server.Table.Records.{
  EntryFits, encode_entries, read_back, scan_loop-encode_entries, length-encode_entries,
}
use info_crate.Server.Table.Index.{IndexFits, read_at_lem}
use info_crate.Server.Table.Layout.{concat, encode_blocks, last_of, index_of}

pub All-front : (P : Entry → Type 0) (xs ys : List Entry) → All P (xs ++ ys) → All P xs × All P ys
All-front P [] ys h = (tt, h)
All-front P (x ∷ xs) ys h = let rest = All-front P xs ys h.1 in ((h.0, rest.0), rest.1)

last_of-size : (b : List Entry) → All EntryFits b → length (last_of b) < 2 ^ 16
unfolding last_of
last_of-size [] h = omega arith
last_of-size (e ∷ []) h = h.0.key_size
last_of-size (e ∷ d ∷ b) h = last_of-size (d ∷ b) h.1

pub index_of-IndexFits :
    (at : ℕ) (blocks : List (List Entry))
    → All EntryFits (concat blocks)
    → at + length (encode_blocks blocks) < 2 ^ 64
    → All IndexFits (index_of at blocks)
unfolding index_of encode_blocks
index_of-IndexFits at [] h size = tt
index_of-IndexFits at (b ∷ blocks) h size =
    let parts = All-front EntryFits b (concat blocks) h in
    let total = length-append (encode_entries b) (encode_blocks blocks) in
    (
      record {
        key_size = last_of-size b parts.0;
        offset_fits = omega (arith, total);
        length_fits = omega (arith, total);
      },
      index_of-IndexFits (at + length (encode_entries b)) blocks parts.1 (omega (arith, total)),
    )

-- A block within the file, by its index entry.
pub read_block :
    (pre : List ℕ) (b : List Entry) (blocks : List (List Entry)) (post : List ℕ)
    → read_at (length pre) (length (encode_entries b)) (pre ++ (encode_blocks (b ∷ blocks) ++ post))
      ≡ some (encode_entries b)
unfolding encode_blocks
read_block pre b blocks post =
    rw (append_assoc (encode_entries b) (encode_blocks blocks) post)
      (read_at_lem pre (encode_entries b) (encode_blocks blocks ++ post))

pub next_block :
    (pre : List ℕ) (b : List Entry) (blocks : List (List Entry)) (post : List ℕ)
    → (pre ++ encode_entries b) ++ (encode_blocks blocks ++ post)
      ≡ pre ++ (encode_blocks (b ∷ blocks) ++ post)
unfolding encode_blocks
next_block pre b blocks post =
    append_assoc pre (encode_entries b) (encode_blocks blocks ++ post)
    ∙ ap (◌++◌ pre) (sym (append_assoc (encode_entries b) (encode_blocks blocks) post))

pub scan_blocks_lem :
    (blocks : List (List Entry)) (pre post : List ℕ)
    → All EntryFits (concat blocks)
    → scan_blocks (pre ++ (encode_blocks blocks ++ post)) (index_of (length pre) blocks)
      ≡ some (map read_back (concat blocks))
unfolding scan_blocks index_of
scan_blocks_lem [] pre post h = refl
scan_blocks_lem (b ∷ blocks) pre post h =
    let parts = All-front EntryFits b (concat blocks) h in
    let rest = scan_blocks_lem blocks (pre ++ encode_entries b) post parts.1 in
    let rest' : scan_blocks (pre ++ (encode_blocks (b ∷ blocks) ++ post))
          (index_of (length pre + length (encode_entries b)) blocks)
        ≡ some (map read_back (concat blocks)) =
      rw (sym (next_block pre b blocks post), sym (length-append pre (encode_entries b))) rest in
    rw (read_block pre b blocks post, rest', scan_block)
      (ap some (
        rw (scan_loop-encode_entries _ b (length-encode_entries b) parts.0) refl
        ∙ sym (map-append read_back b (concat blocks))))
