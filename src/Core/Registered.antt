-- ===== src/Core/Registered.antt =====
-- What `initMaps` leaves in the two name tables.
use kekmonitors_cpp.Prelude.{
  ℕ, String, ◌≡◌, ◌⊎◌, refl, Bool, true, false, not, ◌&&◌, Option, none, some, List, [], ◌∷◌, arith,
  ◌==◌, Bool-cases, inl, inr, is_some, zero, suc, ◌+◌, ◌≤◌, ◌<◌,
}
use kekmonitors_cpp.Prelude.Outcome.{returns, raises, out_of_range}
use kekmonitors_cpp.Text.{rfind}
use kekmonitors_cpp.Core.Bimap.{BimapApi}
use kekmonitors_cpp.Core.Table.{
  distinct, left, insert_all, insert_all_lem, insert_all-none, Fresh-empty,
}
use kekmonitors_cpp.Core.Codes.{
  Commands, Errors, command_type, error_type, first_custom_command, first_custom_error,
}
use kekmonitors_cpp.Core.Names.{
  get_string_without_namespaces, core_commands, core_errors, init_command_map, init_error_map,
  init_maps, string_to_command, command_to_string, string_to_error, error_to_string,
}

-- The pairs that the registrations insert.
abbrev pub command_pairs : List (Commands × String) → List (ℕ × String)
command_pairs [] = []
command_pairs ((c, text) ∷ rest) =
    (command_type c, get_string_without_namespaces text) ∷ command_pairs rest

abbrev error_pairs : List (Errors × String) → List (ℕ × String)
error_pairs [] = []
error_pairs ((e, text) ∷ rest) =
    (error_type e, get_string_without_namespaces text) ∷ error_pairs rest

module _ {M : Type 0} ⦃b : BimapApi M⦄ where
  init_command_map_lem :
      (l : List (Commands × String)) (m : M) → init_command_map l m ≡ insert_all (command_pairs l) m
  unfolding init_command_map insert_all
  init_command_map_lem [] m = refl
  init_command_map_lem ((c, text) ∷ l) m = init_command_map_lem l _

  init_error_map_lem :
      (l : List (Errors × String)) (m : M) → init_error_map l m ≡ insert_all (error_pairs l) m
  unfolding init_error_map insert_all
  init_error_map_lem [] m = refl
  init_error_map_lem ((e, text) ∷ l) m = init_error_map_lem l _

-- Whether a name holds no "::".
abbrev is_bare : String → Bool
is_bare s = not (is_some (rfind "::" s))

abbrev is_named : Option String → Bool
is_named none = false
is_named (some v) = is_bare v

named_lem :
    (o : Option String) → is_named o ≡ true → (v : String) × (o ≡ some v) × (rfind "::" v ≡ none)
named_lem none h = absurd (ground arith)
named_lem (some v) h = (v, refl, ground arith)

-- Every number from `lo` up to `lo + n` has a bare name in the list.
abbrev all_named : List (ℕ × String) → ℕ → ℕ → Bool
all_named ps lo zero = true
all_named ps lo (suc n) = is_named (left ps (lo + n)) && all_named ps lo n

all_named_lem :
    (ps : List (ℕ × String)) (lo n k : ℕ)
    → all_named ps lo n ≡ true
    → lo ≤ k
    → k < lo + n
    → (v : String) × (left ps k ≡ some v) × (rfind "::" v ≡ none)
all_named_lem ps lo zero k h p q = absurd (omega arith)
all_named_lem ps lo (suc n) k h p q = elim (Bool-cases (k == lo + n)) [
  | inl e ↦
      let last : k ≡ lo + n = ground arith in rw last (named_lem (left ps (lo + n)) (ground arith))
  | inr e ↦ all_named_lem ps lo n k (ground arith) p (ground arith)
]

commands_distinct : distinct (command_pairs core_commands) ≡ true
unfolding get_string_without_namespaces command_type
commands_distinct = refl

commands_named : all_named (command_pairs core_commands) 1 49 ≡ true
unfolding get_string_without_namespaces command_type
commands_named = refl

errors_distinct : distinct (error_pairs core_errors) ≡ true
unfolding get_string_without_namespaces error_type
errors_distinct = refl

errors_named : all_named (error_pairs core_errors) 0 20 ≡ true
unfolding get_string_without_namespaces error_type
errors_named = refl

-- The commands' numbers are those of the list, and no others.
commands_unnamed : (k : ℕ) → (k < 1) ⊎ (50 ≤ k) → left (command_pairs core_commands) k ≡ none
unfolding get_string_without_namespaces command_type
commands_unnamed k h = ground arith

errors_unnamed : (k : ℕ) → 20 ≤ k → left (error_pairs core_errors) k ≡ none
unfolding get_string_without_namespaces error_type
errors_unnamed k h = ground arith

module _ (M : Type 0) ⦃b : BimapApi M⦄ where
  -- The tables that `initMaps` leaves.
  commands_lem : (init_maps {M = M}).0 ≡ insert_all (command_pairs core_commands) b.empty
  unfolding init_maps
  commands_lem = init_command_map_lem core_commands b.empty

  errors_lem : (init_maps {M = M}).1 ≡ insert_all (error_pairs core_errors) b.empty
  unfolding init_maps
  errors_lem = init_error_map_lem core_errors b.empty

  right_at-string_to_command :
      (m : M) (name : String) (cmd : ℕ)
      → string_to_command m name ≡ returns cmd
      → b.right_at m name ≡ some cmd
  unfolding string_to_command
  right_at-string_to_command m name cmd h = ground arith

  -- A registered name and its code.
  pub commands_at :
      (cmd : ℕ) (name : String)
      → left (command_pairs core_commands) cmd ≡ some name
      → (command_to_string (init_maps {M = M}).0 cmd ≡ returns name)
        × (string_to_command (init_maps {M = M}).0 name ≡ returns cmd)
  unfolding command_to_string string_to_command
  commands_at cmd name at =
      let entry =
        insert_all_lem (command_pairs core_commands) b.empty cmd name commands_distinct
          (Fresh-empty b (command_pairs core_commands)) at in
      (rw (commands_lem, command_to_string, entry.0), rw (commands_lem, string_to_command, entry.1))

  -- After `initMaps`, each command code from `PING` up to the first custom one has a name with no
  -- namespace in it, which the look-up by name takes back to the code.
  pub string_to_command-command_to_string :
      (cmd : ℕ)
      → command_type Commands.ping ≤ cmd
      → cmd < first_custom_command
      → (name : String) × (rfind "::" name ≡ none)
        × (command_to_string (init_maps {M = M}).0 cmd ≡ returns name)
        × (string_to_command (init_maps {M = M}).0 name ≡ returns cmd)
  unfolding command_to_string string_to_command first_custom_command
  string_to_command-command_to_string cmd p q =
      let (name, at, bare) =
        all_named_lem (command_pairs core_commands) 1 49 cmd commands_named p q in
      let entry = commands_at cmd name at in (name, bare, entry.0, entry.1)

  -- After `initMaps`, each error code from `OK` up to the first custom one has a name with no
  -- namespace in it, which the look-up by name takes back to the code.
  pub string_to_error-error_to_string :
      (err : ℕ)
      → err < first_custom_error
      → (name : String) × (rfind "::" name ≡ none)
        × (error_to_string (init_maps {M = M}).1 err ≡ returns name)
        × (string_to_error (init_maps {M = M}).1 name ≡ returns err)
  unfolding error_to_string string_to_error first_custom_error
  string_to_error-error_to_string err q =
      let (name, at, bare) =
        all_named_lem (error_pairs core_errors) 0 20 err errors_named (omega arith) q in
      let entry =
        insert_all_lem (error_pairs core_errors) b.empty err name errors_distinct
          (Fresh-empty b (error_pairs core_errors)) at in
      (
        name,
        bare,
        rw (errors_lem, error_to_string, entry.0),
        rw (errors_lem, string_to_error, entry.1),
      )

  -- After `initMaps` the look-up of a custom error code throws `std::out_of_range`.
  pub error_to_string_custom :
      (err : ℕ)
      → first_custom_error ≤ err
      → error_to_string (init_maps {M = M}).1 err ≡ raises out_of_range
  unfolding error_to_string first_custom_error
  error_to_string_custom err h =
      let missing =
        insert_all-none (error_pairs core_errors) b.empty err errors_distinct
          (Fresh-empty b (error_pairs core_errors)) (errors_unnamed err h) (b.left_at-empty err) in
      rw (errors_lem, error_to_string, missing)

  -- After `initMaps` the look-up of 0 or of a custom command code throws `std::out_of_range`.
  pub command_to_string_custom :
      (cmd : ℕ)
      → (cmd < command_type Commands.ping) ⊎ (first_custom_command ≤ cmd)
      → command_to_string (init_maps {M = M}).0 cmd ≡ raises out_of_range
  unfolding command_to_string first_custom_command
  command_to_string_custom cmd h =
      let missing =
        insert_all-none (command_pairs core_commands) b.empty cmd commands_distinct
          (Fresh-empty b (command_pairs core_commands)) (commands_unnamed cmd h)
          (b.left_at-empty cmd) in
      rw (commands_lem, command_to_string, missing)
