-- ===== src/Views/CodeExplorer.antt =====
-- What src/components/CodeExplorer.tsx renders for its sample files, and what its controls do. The
-- samples themselves, which are only shown, are a parameter: the first of them and the others.
use info_crate.Common.{Bool, true, false, List, [], ◌∷◌, ◌++◌, if◌then◌else◌}
use info_crate.Text.{JsString, str_eq}
use info_crate.Views.{Item, shows, text, button, str, label, each}

pub data Category : Type 0 where
  core proto cmd deploy : Category

pub record CodeFile : Type 0 where
  pub name : JsString
  pub path : JsString
  pub language : JsString
  pub category : Category
  pub content : JsString

pub record Explorer : Type 0 where
  pub selected_file : CodeFile
  pub copied : Bool

-- `copy` writes to the clipboard; the timer's callback, two seconds later, is `forget_copy`.
pub data ExplorerAction : Type 0 where
  set_selected_file : CodeFile → ExplorerAction
  copy forget_copy : ExplorerAction

-- The new state, and what was put on the clipboard.
unfoldable pub act_explorer : ExplorerAction → Explorer → List JsString → Explorer × List JsString
act_explorer (set_selected_file file) explorer clipboard =
    (record explorer { selected_file = file }, clipboard)
act_explorer copy explorer clipboard =
    (record explorer { copied = true }, explorer.selected_file.content ∷ clipboard)
act_explorer forget_copy explorer clipboard = (record explorer { copied = false }, clipboard)

module _ (first_file : CodeFile) (other_files : List CodeFile) where
  abbrev pub first_explorer : Explorer
  first_explorer = record { selected_file = first_file; copied = false }

  abbrev pub file_button : Explorer → CodeFile → List (Item ExplorerAction)
  file_button explorer file =
      button (str_eq explorer.selected_file.path file.path) (set_selected_file file)
        (text file.name ∷ text file.path ∷ [])
      ∷ []

  unfoldable pub code_explorer : Explorer → List (Item ExplorerAction)
  code_explorer explorer =
      label "Go 1.21+ Core Modules & Protocol Buffers"
        ∷ label
            "Distributed storage engine, Raft replication, Bloom filters, and compaction algorithms."
        ∷ label "Repository File Tree"
        ∷ each (file_button explorer) (first_file ∷ other_files)
      ++ label "File: "
        ∷ shows (text explorer.selected_file.path)
        ∷ button false copy (str (if explorer.copied then "Copied!" else "Copy Code") ∷ [])
        ∷ shows (text explorer.selected_file.content)
        ∷ []
