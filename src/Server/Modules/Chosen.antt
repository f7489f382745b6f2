-- ===== src/Server/Modules/Chosen.antt =====
-- src/server/output.c: which output module get_output_module chooses.
use speechd.Base.{
  true, false, ◌≡◌, Option, none, some, List, [], ◌∷◌, last?, All, String, str_eq, arith, refl, ap,
  ◌⊎◌, inl, inr, Option-cases, if_split,
}
use speechd.Message.{Message}
use speechd.Server.Modules.{
  OutputModule, Outputs, or_else, get_output_module_by_name, first_working, default_output_module,
  last_or_dummy, get_output_module,
}

-- A module that cannot be chosen for its own sake: it is not working, or the dummy.
abbrev pub IsUnfit : OutputModule → Type 0
IsUnfit m = (str_eq m.loaded.name "dummy" ≡ true) ⊎ (m.working ≡ false)

-- What is found is working.
abbrev pub Works : Option OutputModule → Type 0
Works none = Unit
Works (some m) = m.working ≡ true

get_output_module_by_name-Works :
    (modules : List OutputModule) (name : String) → Works (get_output_module_by_name modules name)
unfolding get_output_module_by_name
get_output_module_by_name-Works [] name = tt
get_output_module_by_name-Works (m ∷ modules) name =
    ground (arith, get_output_module_by_name-Works modules name)

first_working-Works : (modules : List OutputModule) → Works (first_working modules)
unfolding first_working
first_working-Works [] = tt
first_working-Works (m ∷ modules) = ground (arith, first_working-Works modules)

first_working-none :
    (modules : List OutputModule) → first_working modules ≡ none → All IsUnfit modules
unfolding first_working
first_working-none [] e = tt
first_working-none (m ∷ modules) e = ground (arith, e, first_working-none modules)

default_output_module-Works : (o : Outputs) → Works (default_output_module o)
unfolding default_output_module
default_output_module-Works o = elim (Option-cases o.output_module) [
  | inl e ↦ rw (e, default_output_module) tt
  | inr (name, e) ↦
      rw (e, default_output_module) (get_output_module_by_name-Works o.output_modules name)
]

last_or_dummy-Works : (modules : List OutputModule) → Works (last_or_dummy modules)
unfolding last_or_dummy
last_or_dummy-Works modules = elim (Option-cases (last? modules)) [
  | inl e ↦ rw (e, last_or_dummy) (get_output_module_by_name-Works modules "dummy")
  | inr (m, e) ↦
      rw (e, last_or_dummy)
        (if_split Works m.working _ _ (λ f. f)
          (λ f. get_output_module_by_name-Works modules "dummy"))
]

last_or_dummy-none :
    (modules : List OutputModule)
    → last_or_dummy modules ≡ none
    → get_output_module_by_name modules "dummy" ≡ none
unfolding last_or_dummy
last_or_dummy-none modules e = elim (Option-cases (last? modules)) [
  | inl f ↦ ground (arith, e, f)
  | inr (m, f) ↦ ground (arith, e, f)
]

or_else-Works : (a b : Option OutputModule) → Works a → Works b → Works (or_else a b)
or_else-Works none b h k = k
or_else-Works (some m) b h k = h

or_else-none : (a b : Option OutputModule) → or_else a b ≡ none → (a ≡ none) × (b ≡ none)
or_else-none none b e = (refl, e)
or_else-none (some m) b e = cc

pub record IsChosen (o : Outputs) (m : Message) : Type 0 where
  pub working : Works (get_output_module o m)
  pub named :
      (x : OutputModule)
      → get_output_module_by_name o.output_modules m.settings.output_module ≡ some x
      → get_output_module o m ≡ some x
  pub others : get_output_module o m ≡ none → All IsUnfit o.output_modules
  pub dummy :
      get_output_module o m ≡ none → get_output_module_by_name o.output_modules "dummy" ≡ none

-- For any message: the module that is chosen is working; it is the one that the message names, if that
-- is working; and if none is chosen, no module but the dummy is working, and the dummy is not either.
pub get_output_module-IsChosen : (o : Outputs) (m : Message) → IsChosen o m
unfolding get_output_module
get_output_module-IsChosen o m = record {
  working = or_else-Works named _ (get_output_module_by_name-Works o.output_modules _) (
      or_else-Works (default_output_module o) _ (default_output_module-Works o) (
        or_else-Works any dummy (first_working-Works o.output_modules)
          (last_or_dummy-Works o.output_modules)));
  named = λ x e. ap (λ a. or_else a (or_else (default_output_module o) (or_else any dummy))) e;
  others = λ e. first_working-none o.output_modules (or_else-none any dummy (last e)).0;
  dummy = λ e. last_or_dummy-none o.output_modules (or_else-none any dummy (last e)).1;
}
  where
    named : Option OutputModule
    named = get_output_module_by_name o.output_modules m.settings.output_module

    any : Option OutputModule
    any = first_working o.output_modules

    dummy : Option OutputModule
    dummy = last_or_dummy o.output_modules

    last :
        or_else named (or_else (default_output_module o) (or_else any dummy)) ≡ none
        → or_else any dummy ≡ none
    last e = (or_else-none (default_output_module o) _ (or_else-none named _ e).1).1
