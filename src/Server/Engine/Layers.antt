-- ===== src/Server/Engine/Layers.antt =====
-- The order in which `Get` of go/pkg/lsm/engine.go asks, and the steps of the engine on it.
use info_crate.Common.{ℕ, ◌≡◌, refl, ap, ◌∙◌, Bool, Option, none, some, List, [], ◌∷◌, All}
use info_crate.Server.Memtable
use info_crate.Server.Memtable.{Memtable, new_memtable, all_entries, entry_of}
use info_crate.Server.Bloom.{BloomMath}
use info_crate.Server.Table.Reader
use info_crate.Server.Table.Reader.{SsTableReader}
use info_crate.Server.Engine.{
  Table, Engine, Looked, look, l0_loop, l1_loop, continue, and_then, or_else, immutable_loop,
  returned, memory_first, look_up, visible, get,
}

-- A table with the answers that it gives.
pub record Answers (math : BloomMath) (t : Table) : Type 0 where
  pub answer : List ℕ → Option (List ℕ × Bool)
  pub answer_lem : (q : List ℕ) → Reader.get math q t.reader ≡ some (answer q)

module _ (math : BloomMath) where
  -- Answers of tables that are asked from the last one on.
  unfoldable pub tables_view :
      (tables : List Table) → All (Answers math) tables → List ℕ → Option (List ℕ × Bool)
  tables_view [] h q = none
  tables_view (t ∷ tables) h q = or_else (tables_view tables h.1 q) (h.0.answer q)

  look_result : (a : Option (List ℕ × Bool)) → (look (some a)).result ≡ some a
  look_result none = unfold look in refl
  look_result (some a) = unfold look in refl

  and_then_result :
      (first second : Looked) {a b : Option (List ℕ × Bool)}
      → first.result ≡ some a
      → second.result ≡ some b
      → (and_then first second).result ≡ some (or_else a b)
  and_then_result first second {a = none} p q = unfold continue in rw p q
  and_then_result first second {a = some x} p q = unfold continue in rw p refl

  l0_loop_lem :
      (q : List ℕ) (tables : List Table) (h : All (Answers math) tables)
      → (l0_loop math q tables).result ≡ some (tables_view tables h q)
  unfolding l0_loop tables_view
  l0_loop_lem q [] h = refl
  l0_loop_lem q (t ∷ tables) h =
      and_then_result (l0_loop math q tables) (look (Reader.get math q t.reader))
        (l0_loop_lem q tables h.1) (rw (h.0.answer_lem q) (look_result (h.0.answer q)))

  -- What the engine says of a key, as the value and the mark, where nothing is on level 1.
  abbrev pub engine_view :
      (e : Engine) → All (Answers math) e.l0_tables → List ℕ → Option (List ℕ × Bool)
  engine_view e h q =
      or_else (or_else (Memtable.get q e.memtable.table) (immutable_loop q e.immutable))
        (tables_view e.l0_tables h q)

  memory_first_result :
      (o : Option (List ℕ × Bool)) (tables : Looked) {a : Option (List ℕ × Bool)}
      → tables.result ≡ some a
      → (memory_first o tables).result ≡ some (or_else o a)
  unfolding memory_first
  memory_first_result none tables p = p
  memory_first_result (some x) tables p = refl

  or_else-none : (a : Option (List ℕ × Bool)) → or_else a none ≡ a
  or_else-none none = refl
  or_else-none (some a) = refl

  tables_lem :
      (q : List ℕ) (e : Engine) (h : All (Answers math) e.l0_tables)
      → e.l1_tables ≡ []
      → (and_then (l0_loop math q e.l0_tables) (l1_loop math q e.l1_tables)).result
        ≡ some (tables_view e.l0_tables h q)
  tables_lem q e h empty =
      and_then_result (l0_loop math q e.l0_tables) (l1_loop math q e.l1_tables) {b = none}
        (l0_loop_lem q e.l0_tables h)
        (ap (λ (l1 : List Table). (l1_loop math q l1).result) empty ∙ unfold l1_loop in refl)
      ∙ ap some (or_else-none (tables_view e.l0_tables h q))

  pub get_lem :
      (q : List ℕ) (e : Engine) (h : All (Answers math) e.l0_tables)
      → e.l1_tables ≡ []
      → (get math q e).0 ≡ some (visible (engine_view e h q))
  get_lem q e h empty =
      let found =
        memory_first_result
          (or_else (Memtable.get q e.memtable.table) (immutable_loop q e.immutable))
          (and_then (l0_loop math q e.l0_tables) (l1_loop math q e.l1_tables))
          (tables_lem q e h empty) in
      unfold get look_up in ap returned found ∙ unfold returned in refl
