-- ===== src/Cli/Listing.antt =====
-- What "--list-cmd" of src/bin/cli.cpp prints.
use kekmonitors_cpp.Prelude.{
  ℕ, zero, suc, ◌+◌, String, ◌≡◌, refl, Bool, true, false, ◌&&◌, not, none, some, List, [], ◌∷◌,
  arith, str_eq, is_some, Option-cases, inl, inr, if◌then◌else◌,
}
use kekmonitors_cpp.Prelude.Outcome.{returns}
use kekmonitors_cpp.Text.{rfind, take}
use kekmonitors_cpp.Core.Bimap.{BimapApi}
use kekmonitors_cpp.Core.Codes.{Commands, command_type, first_custom_command}
use kekmonitors_cpp.Core.Names.{
  core_commands, get_string_without_namespaces, init_maps, command_to_string,
}
use kekmonitors_cpp.Core.Table.{left}
use kekmonitors_cpp.Core.Registered.{command_pairs, commands_at}
use kekmonitors_cpp.Cli.{list_from, list_commands}

abbrev is_manager : String → Bool
is_manager name = str_eq (take 2 name) "MM"

-- The names of the commands that are registered for the manager.
abbrev pub manager_names : List (Commands × String) → List String
manager_names [] = []
manager_names ((c, text) ∷ rest) =
    let name = get_string_without_namespaces text in
    if is_manager name then name ∷ manager_names rest else manager_names rest

-- The names of `n` numbers from `cmd` on.
abbrev listed : List (ℕ × String) → ℕ → ℕ → List String
listed ps zero cmd = []
listed ps (suc n) cmd = elim (left ps cmd) [
  | none ↦ []
  | some name ↦ if is_manager name then name ∷ listed ps n (cmd + 1) else listed ps n (cmd + 1)
]

abbrev all_named : List (ℕ × String) → ℕ → ℕ → Bool
all_named ps zero cmd = true
all_named ps (suc n) cmd =
    elim (left ps cmd) [ none ↦ false | some name ↦ not (is_some (rfind "::" name)) ]
    && all_named ps n (cmd + 1)

commands_all_named : all_named (command_pairs core_commands) 49 1 ≡ true
unfolding get_string_without_namespaces command_type
commands_all_named = refl

listed_lem : listed (command_pairs core_commands) 49 1 ≡ manager_names core_commands
unfolding get_string_without_namespaces command_type
listed_lem = refl

get_string_without_namespaces-bare :
    (name : String) → rfind "::" name ≡ none → get_string_without_namespaces name ≡ name
unfolding get_string_without_namespaces
get_string_without_namespaces-bare name h = rw (h, get_string_without_namespaces) refl

module _ {M : Type 0} ⦃b : BimapApi M⦄ where
  list_from_lem :
      (commands : M) (ps : List (ℕ × String)) (n cmd : ℕ)
      → ((k : ℕ) (name : String)
          → left ps k ≡ some name
          → command_to_string commands k ≡ returns name)
      → all_named ps n cmd ≡ true
      → list_from commands n cmd ≡ returns (listed ps n cmd)
  unfolding list_from
  list_from_lem commands ps zero cmd at h = refl
  list_from_lem commands ps (suc n) cmd at h = elim (Option-cases (left ps cmd)) [
    | inl e ↦ absurd (ground arith)
    | inr (name, e) ↦
        let rest = list_from_lem commands ps n (cmd + 1) at (ground arith) in
        let bare = get_string_without_namespaces-bare name (ground arith) in
        ground (arith, at cmd name e, rest, bare)
  ]

-- With the tables of `initMaps`, "--list-cmd" prints the names that are registered for the manager,
-- those that begin with "MM", in the order of the registrations and without an exception.
pub list_commands-manager_names :
    (M : Type 0) ⦃b : BimapApi M⦄
    → list_commands (init_maps {M = M}).0 ≡ returns (manager_names core_commands)
unfolding list_commands first_custom_command command_type
list_commands-manager_names M = rw⁻¹ listed_lem (
    list_from_lem (init_maps {M = M}).0 (command_pairs core_commands) 49 1
      (λ k name e. (commands_at M k name e).0) commands_all_named)
