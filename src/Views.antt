-- ===== src/Views.antt =====
-- What the components of src/components render, as the texts and the controls in the order of the
-- document: the elements around them, their classes, their icons and tooltips on numbers are left
-- out, except that a button says whether it is drawn as the chosen one.
pub mod Header
pub mod QueryConsole
pub mod ClusterTopology
pub mod LsmInspector
pub mod MetricsDashboard
pub mod ChaosView
pub mod CodeExplorer
pub mod Session
use info_crate.Common.{ℕ, Bool, true, false, List, [], ◌∷◌, ◌++◌, if◌then◌else◌}
use Prim.Native.String.{String}
use info_crate.Text.{JsString, units}
use info_crate.Cluster.{StepText}
use info_crate.Dashboard.{Rate}
use info_crate.Chaos.{ChaosMessage}

-- What a text shows: a string, a number, a number of hundredths, the seconds, to four places, of a
-- number of hundredths of a millisecond, or a value that stands for its text.
pub data Shown : Type 0 where
  text : JsString → Shown
  number hundredths seconds : ℕ → Shown
  rate : Rate → Shown
  step_text : StepText → Shown
  message : ChaosMessage → Shown

-- `button chosen click label`; `field value change`; `choice value options change`.
pub data Item (Action : Type 0) : Type 0 where
  shows : Shown → Item Action
  button : Bool → Action → List Shown → Item Action
  disabled : List Shown → Item Action
  field : JsString → (JsString → Action) → Item Action
  choice : JsString → List (JsString × List Shown) → (JsString → Action) → Item Action

abbrev pub str : String → Shown
str s = text (units s)

abbrev pub label : {Action : Type 0} → String → Item Action
label s = shows (str s)

-- `list.map(render)`, one after the other.
abbrev pub each {ℓ κ} : {A : Type ℓ} {B : Type κ} → (A → List B) → List A → List B
each f [] = []
each f (x ∷ xs) = f x ++ each f xs

-- `condition && element`
abbrev pub only {ℓ} : {B : Type ℓ} → Bool → List B → List B
only b items = if b then items else []
