-- ===== src/Server/Table/Layout.antt =====
-- The blocks that the writer of go/pkg/lsm/sstable.go makes of the entries, and their index.
use info_crate.Common.{
  ℕ, ◌+◌, ◌≡◌, ◌≢◌, refl, ap, ◌∙◌, sym, arith, false, List, [], ◌∷◌, ◌++◌, length, All, All-append,
  length-append, append_assoc, append-nil,
}
use info_crate.Wal.{le_bytes}
use info_crate.Server.Memtable.{Entry}
use info_crate.Server.Table.{IndexEntry, SsTableWriter, is_empty, encode_entry, flush_block}
use info_crate.Server.Table.Records.{encode_entries}

abbrev pub concat : List (List Entry) → List Entry
concat [] = []
concat (b ∷ blocks) = b ++ concat blocks

pub concat-snoc :
    (blocks : List (List Entry)) (b : List Entry) → concat (blocks ++ b ∷ []) ≡ concat blocks ++ b
concat-snoc [] b = append-nil b
concat-snoc (x ∷ blocks) b =
    ap (◌++◌ x) (concat-snoc blocks b) ∙ sym (append_assoc x (concat blocks) b)

unfoldable pub encode_blocks : List (List Entry) → List ℕ
encode_blocks [] = []
encode_blocks (b ∷ blocks) = encode_entries b ++ encode_blocks blocks

encode_blocks-snoc :
    (blocks : List (List Entry)) (b : List Entry)
    → encode_blocks (blocks ++ b ∷ []) ≡ encode_blocks blocks ++ encode_entries b
unfolding encode_blocks
encode_blocks-snoc [] b = append-nil _
encode_blocks-snoc (x ∷ blocks) b =
    ap (◌++◌ (encode_entries x)) (encode_blocks-snoc blocks b)
    ∙ sym (append_assoc (encode_entries x) (encode_blocks blocks) (encode_entries b))

-- The key of the last entry.
unfoldable pub last_of : List Entry → List ℕ
last_of [] = []
last_of (e ∷ []) = e.key
last_of (e ∷ d ∷ entries) = last_of (d ∷ entries)

pub last_of-append :
    (xs : List Entry) (e : Entry) (ys : List Entry) → last_of (xs ++ e ∷ ys) ≡ last_of (e ∷ ys)
unfolding last_of
last_of-append [] e ys = refl
last_of-append (x ∷ []) e ys = refl
last_of-append (x ∷ y ∷ xs) e ys = last_of-append (y ∷ xs) e ys

abbrev pub index_entry : ℕ → List Entry → IndexEntry
index_entry at b = record { last_key = last_of b; offset = at; length = length (encode_entries b) }

-- The index of blocks that lie end to end from an offset on.
unfoldable pub index_of : ℕ → List (List Entry) → List IndexEntry
index_of at [] = []
index_of at (b ∷ blocks) = index_entry at b ∷ index_of (at + length (encode_entries b)) blocks

index_of-snoc :
    (at : ℕ) (blocks : List (List Entry)) (b : List Entry)
    → index_of at (blocks ++ b ∷ [])
      ≡ index_of at blocks ++ index_entry (at + length (encode_blocks blocks)) b ∷ []
unfolding index_of encode_blocks
index_of-snoc at [] b = ap (λ (k : ℕ). index_entry k b ∷ []) (omega arith)
index_of-snoc at (x ∷ blocks) b = ap (◌∷◌ (index_entry at x)) (
    index_of-snoc (at + length (encode_entries x)) blocks b
    ∙ ap (λ (k : ℕ). index_of (at + length (encode_entries x)) blocks ++ index_entry k b ∷ [])
        (omega (arith, length-append (encode_entries x) (encode_blocks blocks))))

abbrev pub IsFull : List Entry → Type 0
IsFull b = b ≢ []

-- The writer after entries, of which those of `tail` are not in a block of the file yet.
pub record Wrote (blocks : List (List Entry)) (tail : List Entry) (w : SsTableWriter) : Type 0 where
  pub on_disk : w.file ≡ encode_blocks blocks
  pub in_memory : w.curr_block ≡ encode_entries tail
  pub indexed : w.index_entries ≡ index_of 0 blocks
  pub at_end : w.offset ≡ length w.file
  pub full : All IsFull blocks

is_empty-full : (tail : List Entry) → IsFull tail → is_empty (encode_entries tail) ≡ false
unfolding encode_entries encode_entry le_bytes
is_empty-full [] h = absurd (h refl)
is_empty-full (x ∷ tail) h = refl

pub IsFull-snoc : (tail : List Entry) (e : Entry) → IsFull (tail ++ e ∷ [])
IsFull-snoc [] e = λ h. cc
IsFull-snoc (x ∷ tail) e = λ h. cc

pub flush_block-Wrote :
    (blocks : List (List Entry)) (tail : List Entry) (last : List ℕ) (w : SsTableWriter)
    → IsFull tail
    → Wrote blocks tail w
    → last ≡ last_of tail
    → Wrote (blocks ++ tail ∷ []) [] (flush_block last w)
unfolding flush_block
flush_block-Wrote blocks tail last w full h same =
    let some_bytes : is_empty w.curr_block ≡ false =
      ap is_empty h.in_memory ∙ is_empty-full tail full in
    rw some_bytes (record {
      on_disk = rw (h.on_disk, h.in_memory, encode_blocks-snoc) refl;
      in_memory = unfold encode_entries in refl;
      indexed =
          rw (h.indexed, h.in_memory, same, h.at_end, h.on_disk, index_of-snoc)
            (ap (λ (k : ℕ). index_of 0 blocks ++ index_entry k tail ∷ []) (omega arith));
      at_end = omega (arith, h.at_end, length-append w.file w.curr_block);
      full = All-append IsFull blocks _ h.full (full, tt);
    })
