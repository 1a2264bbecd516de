-- ===== src/Moman/Configs.antt =====
-- `parseAndSendConfigs` and `sendCmdIfProcess` of src/bin/moman/moman.cpp.
use Prim.Native.String.{count}
use kekmonitors_cpp.Prelude.{
  ℕ, zero, suc, ◌+◌, ◌-◌, String, Bool, ◌||◌, Option, none, some, List, [], ◌∷◌, ◌++◌, find, str_eq,
  if◌then◌else◌,
}
use kekmonitors_cpp.Core.Codes.{
  CommandType, Commands, command_type, MonitorOrScraper, monitor, scraper, ErrorCode, is_error,
  set_common_webhooks, set_specific_webhooks, set_common_whitelist, set_specific_whitelist,
  set_common_blacklist, set_specific_blacklist, set_common_config, set_specific_config,
}
use kekmonitors_cpp.Json.{JsonApi}
use kekmonitors_cpp.Msg.Cmd.{Cmd, new_cmd}
use kekmonitors_cpp.Text.{begins, drop, take}
use kekmonitors_cpp.Moman.State.{
  Sending, SendingStage, connecting, writing, reading_response, System, stored,
}

-- The loop over the positions of the path from the last one down, with `lastSlash` if the flag is
-- set. Its condition always holds: below position 0 it reads outside the text, `none` here.
unfoldable pub scan : String → ℕ → Option ℕ → Option String
unfolding begins drop take
scan path zero last = none
scan path (suc i) last =
    if begins (drop i path) "/"
    then (elim last [
      | none ↦ scan path i (some i)
      | some last_slash ↦ some (take (last_slash - i - 1) (drop (i + 1) path))
    ])
    else scan path i last

unfoldable pub config_sub_dir : String → Option String
unfolding scan
config_sub_dir path = scan path (count path) none

abbrev common_or_specific : String → Commands → Commands → Commands
common_or_specific sub_dir common specific = if str_eq sub_dir "common" then common else specific

-- The command for a file, `none` where the code sets none.
unfoldable pub config_command : String → String → Option Commands
config_command filename sub_dir =
    if str_eq filename "webhooks.json"
    then some (common_or_specific sub_dir set_common_webhooks set_specific_webhooks)
    else if str_eq filename "whitelists.json"
    then some (common_or_specific sub_dir set_common_whitelist set_specific_whitelist)
    else if str_eq filename "blacklists.json"
    then some (common_or_specific sub_dir set_common_blacklist set_specific_blacklist)
    else if str_eq filename "configs.json"
    then some (common_or_specific sub_dir set_common_config set_specific_config)
    else none

-- Whether the objects of a kind are sent the configurations of the folder.
abbrev pub is_sent_to : MonitorOrScraper → String → Bool
is_sent_to monitor sub_dir = str_eq sub_dir "monitors" || str_eq sub_dir "common"
is_sent_to scraper sub_dir = str_eq sub_dir "scrapers" || str_eq sub_dir "common"

-- The handlers, which change nothing and start the next operation.
unfoldable pub next_stage : SendingStage → ErrorCode → Option SendingStage
unfolding is_error
next_stage connecting err = if is_error err then none else some writing
next_stage writing err = if is_error err then none else some reading_response
next_stage reading_response err = none

module _ {Json : Type 0} where
  unfoldable pub send_cmd_if_process :
      MonitorOrScraper → Cmd Json → String → System Json → List (Sending Json)
  send_cmd_if_process m cmd class_name s = elim (find class_name (stored m s)) [
    | none ↦ []
    | some obj ↦ elim obj.process [
      | none ↦ []
      | some p ↦ elim obj.endpoint [
        | none ↦ []
        | some ep ↦ record { kind = m; class_name = class_name; endpoint = ep; cmd = cmd } ∷ []
      ]
    ]
  ]

  -- The loop over the class names of the file.
  unfoldable pub send_configs :
      String → CommandType → List (String × Json) → System Json → List (Sending Json)
  unfolding send_cmd_if_process
  send_configs sub_dir code [] s = []
  send_configs sub_dir code ((class_name, config) ∷ items) s =
      let cmd : Cmd Json = record { cmd = code; payload = config } in
      (if is_sent_to monitor sub_dir then send_cmd_if_process monitor cmd class_name s else [])
      ++ ((if is_sent_to scraper sub_dir then send_cmd_if_process scraper cmd class_name s else [])
          ++ send_configs sub_dir code items s)

module _ {Json : Type 0} ⦃J : JsonApi Json⦄ where
  -- `content` is what the file parses to, `none` if it cannot be opened or parsed. The result is
  -- `none` where the loop over the path reads outside of it.
  unfoldable pub parse_and_send_configs :
      Option Json → String → String → System Json → Option (List (Sending Json))
  unfolding config_sub_dir config_command send_configs command_type new_cmd
  parse_and_send_configs none full_path filename s = some []
  parse_and_send_configs (some config) full_path filename s =
      if J.is_object config
      then (elim (config_sub_dir full_path) [
        | none ↦ none
        | some sub_dir ↦
            if str_eq sub_dir ""
            then some []
            else let code : CommandType = elim (config_command filename sub_dir) [
              | none ↦ (new_cmd {Json = Json}).cmd
              | some c ↦ command_type c
            ] in
              some (send_configs sub_dir code (J.items config) s)
      ])
      else some []

-- The connections are started in their order.
unfoldable pub started_sendings :
    {Json : Type 0}
    → List (Sending Json)
    → List (Sending Json × SendingStage)
    → List (Sending Json × SendingStage)
started_sendings [] under_way = under_way
started_sendings (x ∷ xs) under_way = started_sendings xs ((x, connecting) ∷ under_way)
