-- ===== src/Tests.antt =====
-- Concrete runs at which the theorems apply.
mod Pages
mod Servers
mod Engines
mod Queries
mod Shown
mod Storage
mod Clusters
use info_crate.Common.{Option, none, some, List, [], ◌∷◌, Bool, true, false, ◌≡◌, refl}
use info_crate.Text.{JsString, units, unit_compare}
use info_crate.SsTable.{Entry}
use info_crate.Lsm.Range.{Collation}

-- The order of the code units, for keys in plain text.
abbrev pub plain : Collation
plain = record { locale_compare = unit_compare; IsPlain = λ k. Unit; agrees = λ a b p q. refl }

abbrev pub alice : JsString
alice = units "user:1"

abbrev pub bob : JsString
bob = units "user:2"

abbrev pub two_entries : List Entry
two_entries =
    record { key = alice; value = some (units "a"); is_tombstone = false; timestamp = 7 }
    ∷ record { key = bob; value = none; is_tombstone = true; timestamp = 8 }
    ∷ []
