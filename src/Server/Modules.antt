-- ===== src/Server/Modules.antt =====
-- src/server/output.c: the choice of the output module for a message, and what output_speak records
-- when it hands a message to it.
pub mod Chosen
use speechd.Base.{
  ℕ, ◌==◌, Bool, true, false, not, ◌&&◌, Option, none, some, List, [], ◌∷◌, last?, String, str_eq,
  if◌then◌else◌,
}
use speechd.Message.{Message}
use speechd.Server.{State, Module}

-- A loaded module, with `working`.
pub record OutputModule : Type 0 where
  pub loaded : Module
  pub working : Bool

-- `output_modules`, and the module that `GlobalFDSet` names
pub record Outputs : Type 0 where
  pub output_modules : List OutputModule
  pub output_module : Option String

-- `get_output_module_by_name`: the first module of that name, if it is working.
unfoldable pub get_output_module_by_name : List OutputModule → String → Option OutputModule
get_output_module_by_name [] name = none
get_output_module_by_name (m ∷ modules) name =
    let later = get_output_module_by_name modules name in
    if str_eq m.loaded.name name then (if m.working then some m else none) else later

-- The loop over all modules: the first that is working and is not the dummy.
unfoldable pub first_working : List OutputModule → Option OutputModule
first_working [] = none
first_working (m ∷ modules) =
    let later = first_working modules in
    if str_eq m.loaded.name "dummy" then later else if m.working then some m else later

abbrev or_else : Option OutputModule → Option OutputModule → Option OutputModule
or_else none later = later
or_else (some m) later = some m

-- `GlobalFDSet.output_module`, if it is set
unfoldable pub default_output_module : Outputs → Option OutputModule
default_output_module o = elim o.output_module [
  | none ↦ none
  | some name ↦ get_output_module_by_name o.output_modules name
]

-- Behind the loop: the module that it looked at last, if that is working, or else the dummy.
unfoldable pub last_or_dummy : List OutputModule → Option OutputModule
last_or_dummy modules = elim (last? modules) [
  | none ↦ get_output_module_by_name modules "dummy"
  | some m ↦ if m.working then some m else get_output_module_by_name modules "dummy"
]

-- `get_output_module`, with `get_some_output_module_by_name`: the module that the message names, the
-- default module, any other, the dummy.
unfoldable pub get_output_module : Outputs → Message → Option OutputModule
get_output_module o m =
    or_else (get_output_module_by_name o.output_modules m.settings.output_module) (
      or_else (default_output_module o)
        (or_else (first_working o.output_modules) (last_or_dummy o.output_modules)))

-- `escape_dot` of src/server/output.c: a full stop at the beginning of a line is doubled.
unfoldable pub escape_lines : List ℕ → List ℕ
escape_lines [] = []
escape_lines (a ∷ []) = a ∷ []
escape_lines (a ∷ b ∷ text) = elim (a == 10 && b == 46) [
  | true ↦ 10 ∷ 46 ∷ 46 ∷ escape_lines text
  | false ↦ a ∷ escape_lines (b ∷ text)
]

unfoldable pub escape_line_dots : List ℕ → List ℕ
escape_line_dots [] = []
escape_line_dots (a ∷ text) =
    if a == 46 then 46 ∷ 46 ∷ escape_lines text else escape_lines (a ∷ text)
