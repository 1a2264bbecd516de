-- ===== src/Cli/Runs.antt =====
-- What the invocations of src/bin/cli.cpp do, with the tables of `initMaps`.
use kekmonitors_cpp.Prelude.{
  ◌%◌, String, ◌≡◌, refl, ◌↔◌, true, false, none, List, [], ◌∷◌, length, arith, str_eq, ◌==◌,
  Bool-cases, Option-cases, inl, inr,
}
use kekmonitors_cpp.Prelude.Outcome.{Try, returns}
use kekmonitors_cpp.Core.Bimap.{BimapApi}
use kekmonitors_cpp.Core.Codes.{CommandType}
use kekmonitors_cpp.Core.Names.{init_maps, string_to_command}
use kekmonitors_cpp.Json.{JsonApi}
use kekmonitors_cpp.Msg.Cmd.{Cmd, new_cmd}
use kekmonitors_cpp.Cli.{
  ℤ, exits, sends, command_of, or_number, with_payload, send, run, read_options,
}
use kekmonitors_cpp.Cli.Payload.{
  option_args, last_value, has_keys, or_at, read_options_lem, read_options-has_keys,
}

length-option_args :
    (options : List (String × String)) → (length (option_args options) % 2 == 0) ≡ true
length-option_args [] = refl
length-option_args ((key, value) ∷ options) = ground (arith, length-option_args options)

module _ {Json : Type 0} ⦃J : JsonApi Json⦄ where
  with_payload_lem :
      (command : CommandType) (options : List (String × String))
      → (c : Cmd Json) × (with_payload command (option_args options) ≡ sends c)
        × (c.cmd ≡ command)
        × ((k : String) → J.at c.payload k ≡ or_at (last_value options k) none)
  unfolding with_payload new_cmd
  with_payload_lem command [] = (_, refl, refl, λ k. J.at-null k)
  with_payload_lem command ((key, value) ∷ options) =
      let all = (key, value) ∷ options in
      let (p, e, at) = read_options_lem all J.null (ground (arith, J.is_null-null)) in
      (
        record { cmd = command; payload = p },
        rw (length-option_args all, e) refl,
        refl,
        λ k. rw⁻¹ (J.at-null k) (at k),
      )

  with_payload-errors :
      (command : CommandType) (args : List String)
      → (with_payload {Json = Json} command args ≡ exits 3 ↔ (length args % 2 ≡ 1))
        × (with_payload {Json = Json} command args ≡ exits 4
            ↔ (length args % 2 ≡ 0) × (has_keys args ≡ false))
  unfolding with_payload
  with_payload-errors command [] = ground arith
  with_payload-errors command (arg ∷ args) =
      let bad = read_options-has_keys (arg ∷ args) J.null in
      elim (Bool-cases (length (arg ∷ args) % 2 == 0)) [
        | inl e ↦ elim (Option-cases (read_options (arg ∷ args) J.null)) [
          | inl o ↦ rw o (ground (arith, e, bad.1 o))
          | inr (p, o) ↦ rw o (ground (arith, e, bad, o))
        ]
        | inr e ↦ ground (arith, e)
      ]

  module _ (M : Type 0) ⦃b : BimapApi M⦄ (stoi : String → Try ℤ) (program name : String) where
    -- An invocation with the name of a registered command, other than "--list-cmd", and any options
    -- "--key value" sends the command's code, and a payload that has, for each key, the value of
    -- the last option with that key, and nothing for other keys.
    pub run-named :
        (command : CommandType) (options : List (String × String))
        → str_eq name "--list-cmd" ≡ false
        → string_to_command (init_maps {M = M}).0 name ≡ returns command
        → (c : Cmd Json) × (run (init_maps {M = M}).0 stoi (program ∷ name ∷ option_args options)
            ≡ sends c)
          × (c.cmd ≡ command)
          × ((k : String) → J.at c.payload k ≡ or_at (last_value options k) none)
    unfolding run command_of or_number send
    run-named command options l h =
        let (c, e, code, at) = with_payload_lem command options in (c, rw (l, h) e, code, at)

    -- With a first argument, other than "--list-cmd", that stands for a command, the client ends with exit
    -- code 3 exactly if the number of further arguments is odd, and with 4 exactly if it is even
    -- and one of the keys does not start with "--".
    pub run-errors :
        (command : CommandType) (args : List String)
        → str_eq name "--list-cmd" ≡ false
        → command_of (init_maps {M = M}).0 stoi name ≡ returns command
        → (run {Json = Json} (init_maps {M = M}).0 stoi (program ∷ name ∷ args) ≡ exits 3
            ↔ (length args % 2 ≡ 1))
          × (run {Json = Json} (init_maps {M = M}).0 stoi (program ∷ name ∷ args) ≡ exits 4
              ↔ (length args % 2 ≡ 0) × (has_keys args ≡ false))
    unfolding run send
    run-errors command args l h = rw (l, h) (with_payload-errors command args)
