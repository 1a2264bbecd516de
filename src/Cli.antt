-- ===== src/Cli.antt =====
-- src/bin/cli.cpp: the command line client, which sends one command to the manager.
pub mod Payload
pub mod Listing
pub mod Runs
pub mod Exchange
pub mod Adding
use Prim.Native.String.{◌++◌}
use kekmonitors_cpp.Prelude.{
  ℕ, zero, suc, ◌+◌, ◌-◌, ◌%◌, String, Bool, Option, none, some, List, [], ◌∷◌, length, ◌==◌,
  str_eq, if◌then◌else◌,
}
use kekmonitors_cpp.Prelude.Outcome.{Exn, out_of_range, invalid_argument, Try, returns, raises}
use kekmonitors_cpp.Text.{begins, take, drop}
use kekmonitors_cpp.Core.Bimap.{BimapApi}
use kekmonitors_cpp.Core.Codes.{
  CommandType, command_type, first_custom_command, ping, u32_mod, ErrorCode, is_error,
}
use kekmonitors_cpp.Core.Names.{
  get_string_without_namespaces, string_to_command, command_to_string, error_to_string,
}
use kekmonitors_cpp.Json.{JsonApi, JsonText}
use kekmonitors_cpp.Msg.Cmd.{Cmd, new_cmd}
use kekmonitors_cpp.Msg.Response.{Response}

-- What `std::stoi` gives.
pub data ℤ : Type 0 where
  pos negsuc : ℕ → ℤ

-- `static_cast<CommandType>`
abbrev pub to_command_type : ℤ → CommandType
to_command_type (pos n) = n % u32_mod
to_command_type (negsuc n) = u32_mod - 1 - n % u32_mod

-- What `main` does up to `io.run()`: it ends with an exit code after a message, prints a list, ends
-- by an exception, or starts to send a command.
pub data Invocation (Json : Type 0) : Type 0 where
  exits : ℕ → Invocation Json
  lists : List String → Invocation Json
  terminates : Exn → Invocation Json
  sends : Cmd Json → Invocation Json

-- The handler of `std::out_of_range` around the look-up, with `std::stoi`.
unfoldable pub or_number : (String → Try ℤ) → String → Try CommandType → Try CommandType
or_number stoi text (returns command) = returns command
or_number stoi text (raises out_of_range) = elim (stoi text) [
  | returns n ↦ returns (to_command_type n)
  | raises e ↦ raises e
]
or_number stoi text (raises e) = raises e

module _ {M : Type 0} ⦃b : BimapApi M⦄ where
  -- The loop of "--list-cmd" over `n` codes from `cmd` on.
  unfoldable pub list_from : M → ℕ → CommandType → Try (List String)
  unfolding command_to_string get_string_without_namespaces take
  list_from commands zero cmd = returns []
  list_from commands (suc n) cmd = elim (command_to_string commands cmd) [
    | raises e ↦ raises e
    | returns text ↦ elim (list_from commands n (cmd + 1)) [
      | raises e ↦ raises e
      | returns names ↦
          let name = get_string_without_namespaces text in
          returns (if str_eq (take 2 name) "MM" then name ∷ names else names)
    ]
  ]

  unfoldable pub list_commands : M → Try (List String)
  unfolding list_from command_type first_custom_command
  list_commands commands =
      list_from commands (first_custom_command - command_type ping) (command_type ping)

  unfoldable pub command_of : M → (String → Try ℤ) → String → Try CommandType
  unfolding string_to_command or_number
  command_of commands stoi text = or_number stoi text (string_to_command commands text)

module _ {Json : Type 0} ⦃J : JsonApi Json⦄ where
  -- The loop over the options, which come in pairs, since an odd number was refused; `none` where a key
  -- does not start with "--".
  unfoldable pub read_options : List String → Json → Option Json
  unfolding begins drop
  read_options (key ∷ value ∷ args) payload =
      if begins key "--"
      then read_options args (J.put payload (drop 2 key) (J.of_string value))
      else none
  read_options args payload = some payload

  unfoldable pub with_payload : CommandType → List String → Invocation Json
  unfolding new_cmd read_options
  with_payload command [] = sends (record new_cmd { cmd = command })
  with_payload command (arg ∷ args) =
      if length (arg ∷ args) % 2 == 0
      then (elim (read_options (arg ∷ args) J.null) [
        | none ↦ exits 4
        | some payload ↦ sends (record { cmd = command; payload = payload })
      ])
      else exits 3

  -- `argv[1]` named a command, or the handler of `std::invalid_argument` runs.
  unfoldable pub send : List String → Try CommandType → Invocation Json
  unfolding with_payload
  send args (returns command) = with_payload command args
  send args (raises invalid_argument) = exits 2
  send args (raises e) = terminates e

  module _ {M : Type 0} ⦃b : BimapApi M⦄ where
    -- `main`, with `argv`; `commands` is the table of `initMaps`.
    unfoldable pub run : M → (String → Try ℤ) → List String → Invocation Json
    unfolding list_commands command_of send
    run commands stoi (program ∷ first ∷ args) =
        if str_eq first "--list-cmd"
        then (elim (list_commands commands) [
          | raises e ↦ terminates e
          | returns names ↦ lists names
        ])
        else send args (command_of commands stoi first)
    run commands stoi argv = exits 1

-- How an operation ends: its error, and that error's text.
pub record Ended : Type 0 where
  pub error : ErrorCode
  pub message : String

-- What the handlers log.
pub data Line : Type 0 where
  error_line info_line : String → Line

module _ {Json M : Type 0} ⦃J : JsonApi Json⦄ ⦃b : BimapApi M⦄ (T : JsonText Json) where
  -- The handler of `asyncReadResponse`; `is_empty` is the payload's `empty()`.
  unfoldable pub on_response : M → (Json → Bool) → Ended → Response Json → Try (List Line)
  unfolding is_error error_to_string
  on_response errors is_empty read resp =
      if is_error read.error
      then returns (error_line read.message ∷ [])
      else elim (error_to_string errors resp.error) [
        | raises e ↦ raises e
        | returns text ↦
            let payload =
              if is_empty resp.payload
              then []
              else info_line ("[Payload] " ++ T.dump resp.payload) ∷ [] in
            let rest =
              if str_eq resp.info ""
              then payload
              else info_line ("[Info] " ++ resp.info) ∷ payload in
            let first =
              if resp.error == 0
              then info_line ("[Cmd] " ++ text)
              else error_line ("[Error] " ++ text) in
            returns (first ∷ rest)
      ]

  -- The handlers of `async_connect`, `asyncWriteCmd` and `asyncReadResponse`, one in the other: how each
  -- ended, and what was read.
  unfoldable pub exchange :
      M → (Json → Bool) → Ended → Ended → Ended → Response Json → Try (List Line)
  unfolding is_error on_response
  exchange errors is_empty connected written read resp =
      if is_error connected.error
      then returns (error_line connected.message ∷ [])
      else if is_error written.error
      then returns (error_line written.message ∷ [])
      else on_response errors is_empty read resp
