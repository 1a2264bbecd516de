-- ===== src/Core/Names.antt =====
-- The name tables of src/lib/core.cpp and their look-ups in src/lib/utils.cpp.
use kekmonitors_cpp.Prelude.{ℕ, ◌+◌, String, Option, none, some, List, [], ◌∷◌}
use kekmonitors_cpp.Prelude.Outcome.{Try, returns, raises, out_of_range}
use kekmonitors_cpp.Text.{rfind, drop}
use kekmonitors_cpp.Core.Bimap.{BimapApi}
use kekmonitors_cpp.Core.Codes.{CommandType, ErrorType, Commands, Errors, command_type, error_type}

-- What stands behind the last "::".
unfoldable pub get_string_without_namespaces : String → String
unfolding rfind drop
get_string_without_namespaces command = elim (rfind "::" command) [
  | some last_namespace_separator ↦ drop (last_namespace_separator + 2) command
  | none ↦ command
]

-- The calls of `CORE_REGISTER_COMMAND`, each with its argument as the macro spells it.
abbrev pub core_commands : List (Commands × String)
core_commands =
    (Commands.ping, "kekmonitors::COMMANDS::PING")
    ∷ (Commands.stop, "kekmonitors::COMMANDS::STOP")
    ∷ (Commands.set_shoes, "kekmonitors::COMMANDS::SET_SHOES")
    ∷ (Commands.add_shoes, "kekmonitors::COMMANDS::ADD_SHOES")
    ∷ (Commands.get_shoes, "kekmonitors::COMMANDS::GET_SHOES")
    ∷ (Commands.get_config, "kekmonitors::COMMANDS::GET_CONFIG")
    ∷ (Commands.get_whitelist, "kekmonitors::COMMANDS::GET_WHITELIST")
    ∷ (Commands.get_blacklist, "kekmonitors::COMMANDS::GET_BLACKLIST")
    ∷ (Commands.get_webhooks, "kekmonitors::COMMANDS::GET_WEBHOOKS")
    ∷ (Commands.set_specific_config, "kekmonitors::COMMANDS::SET_SPECIFIC_CONFIG")
    ∷ (Commands.set_specific_webhooks, "kekmonitors::COMMANDS::SET_SPECIFIC_WEBHOOKS")
    ∷ (Commands.set_specific_blacklist, "kekmonitors::COMMANDS::SET_SPECIFIC_BLACKLIST")
    ∷ (Commands.set_specific_whitelist, "kekmonitors::COMMANDS::SET_SPECIFIC_WHITELIST")
    ∷ (Commands.set_common_config, "kekmonitors::COMMANDS::SET_COMMON_CONFIG")
    ∷ (Commands.set_common_webhooks, "kekmonitors::COMMANDS::SET_COMMON_WEBHOOKS")
    ∷ (Commands.set_common_blacklist, "kekmonitors::COMMANDS::SET_COMMON_BLACKLIST")
    ∷ (Commands.set_common_whitelist, "kekmonitors::COMMANDS::SET_COMMON_WHITELIST")
    ∷ (Commands.mm_add_monitor, "kekmonitors::COMMANDS::MM_ADD_MONITOR")
    ∷ (Commands.mm_add_scraper, "kekmonitors::COMMANDS::MM_ADD_SCRAPER")
    ∷ (Commands.mm_add_monitor_scraper, "kekmonitors::COMMANDS::MM_ADD_MONITOR_SCRAPER")
    ∷ (Commands.mm_stop_monitor, "kekmonitors::COMMANDS::MM_STOP_MONITOR")
    ∷ (Commands.mm_stop_scraper, "kekmonitors::COMMANDS::MM_STOP_SCRAPER")
    ∷ (Commands.mm_stop_monitor_scraper, "kekmonitors::COMMANDS::MM_STOP_MONITOR_SCRAPER")
    ∷ (Commands.mm_stop_monitor_manager, "kekmonitors::COMMANDS::MM_STOP_MONITOR_MANAGER")
    ∷ (Commands.mm_get_monitor_status, "kekmonitors::COMMANDS::MM_GET_MONITOR_STATUS")
    ∷ (Commands.mm_get_scraper_status, "kekmonitors::COMMANDS::MM_GET_SCRAPER_STATUS")
    ∷ (
      Commands.mm_get_monitor_scraper_status,
      "kekmonitors::COMMANDS::MM_GET_MONITOR_SCRAPER_STATUS",
    )
    ∷ (Commands.mm_set_monitor_config, "kekmonitors::COMMANDS::MM_SET_MONITOR_CONFIG")
    ∷ (Commands.mm_get_monitor_config, "kekmonitors::COMMANDS::MM_GET_MONITOR_CONFIG")
    ∷ (Commands.mm_set_monitor_whitelist, "kekmonitors::COMMANDS::MM_SET_MONITOR_WHITELIST")
    ∷ (Commands.mm_get_monitor_whitelist, "kekmonitors::COMMANDS::MM_GET_MONITOR_WHITELIST")
    ∷ (Commands.mm_set_monitor_blacklist, "kekmonitors::COMMANDS::MM_SET_MONITOR_BLACKLIST")
    ∷ (Commands.mm_get_monitor_blacklist, "kekmonitors::COMMANDS::MM_GET_MONITOR_BLACKLIST")
    ∷ (Commands.mm_set_monitor_webhooks, "kekmonitors::COMMANDS::MM_SET_MONITOR_WEBHOOKS")
    ∷ (Commands.mm_get_monitor_webhooks, "kekmonitors::COMMANDS::MM_GET_MONITOR_WEBHOOKS")
    ∷ (Commands.mm_set_scraper_config, "kekmonitors::COMMANDS::MM_SET_SCRAPER_CONFIG")
    ∷ (Commands.mm_get_scraper_config, "kekmonitors::COMMANDS::MM_GET_SCRAPER_CONFIG")
    ∷ (Commands.mm_set_scraper_whitelist, "kekmonitors::COMMANDS::MM_SET_SCRAPER_WHITELIST")
    ∷ (Commands.mm_get_scraper_whitelist, "kekmonitors::COMMANDS::MM_GET_SCRAPER_WHITELIST")
    ∷ (Commands.mm_set_scraper_blacklist, "kekmonitors::COMMANDS::MM_SET_SCRAPER_BLACKLIST")
    ∷ (Commands.mm_get_scraper_blacklist, "kekmonitors::COMMANDS::MM_GET_SCRAPER_BLACKLIST")
    ∷ (Commands.mm_set_scraper_webhooks, "kekmonitors::COMMANDS::MM_SET_SCRAPER_WEBHOOKS")
    ∷ (Commands.mm_get_scraper_webhooks, "kekmonitors::COMMANDS::MM_GET_SCRAPER_WEBHOOKS")
    ∷ (
      Commands.mm_set_monitor_scraper_blacklist,
      "kekmonitors::COMMANDS::MM_SET_MONITOR_SCRAPER_BLACKLIST",
    )
    ∷ (
      Commands.mm_set_monitor_scraper_whitelist,
      "kekmonitors::COMMANDS::MM_SET_MONITOR_SCRAPER_WHITELIST",
    )
    ∷ (
      Commands.mm_set_monitor_scraper_webhooks,
      "kekmonitors::COMMANDS::MM_SET_MONITOR_SCRAPER_WEBHOOKS",
    )
    ∷ (
      Commands.mm_set_monitor_scraper_config,
      "kekmonitors::COMMANDS::MM_SET_MONITOR_SCRAPER_CONFIG",
    )
    ∷ (Commands.mm_get_monitor_shoes, "kekmonitors::COMMANDS::MM_GET_MONITOR_SHOES")
    ∷ (Commands.mm_get_scraper_shoes, "kekmonitors::COMMANDS::MM_GET_SCRAPER_SHOES")
    ∷ []

-- The calls of `CORE_REGISTER_ERROR`.
abbrev pub core_errors : List (Errors × String)
core_errors =
    (Errors.ok, "kekmonitors::ERRORS::OK")
    ∷ (Errors.socket_doesnt_exist, "kekmonitors::ERRORS::SOCKET_DOESNT_EXIST")
    ∷ (Errors.socket_couldnt_connect, "kekmonitors::ERRORS::SOCKET_COULDNT_CONNECT")
    ∷ (Errors.socket_timeout, "kekmonitors::ERRORS::SOCKET_TIMEOUT")
    ∷ (Errors.monitor_doesnt_exist, "kekmonitors::ERRORS::MONITOR_DOESNT_EXIST")
    ∷ (Errors.scraper_doesnt_exist, "kekmonitors::ERRORS::SCRAPER_DOESNT_EXIST")
    ∷ (Errors.monitor_not_registered, "kekmonitors::ERRORS::MONITOR_NOT_REGISTERED")
    ∷ (Errors.scraper_not_registered, "kekmonitors::ERRORS::SCRAPER_NOT_REGISTERED")
    ∷ (Errors.unrecognized_command, "kekmonitors::ERRORS::UNRECOGNIZED_COMMAND")
    ∷ (Errors.bad_payload, "kekmonitors::ERRORS::BAD_PAYLOAD")
    ∷ (Errors.missing_payload, "kekmonitors::ERRORS::MISSING_PAYLOAD")
    ∷ (Errors.missing_payload_args, "kekmonitors::ERRORS::MISSING_PAYLOAD_ARGS")
    ∷ (Errors.mm_couldnt_add_monitor, "kekmonitors::ERRORS::MM_COULDNT_ADD_MONITOR")
    ∷ (Errors.mm_couldnt_add_scraper, "kekmonitors::ERRORS::MM_COULDNT_ADD_SCRAPER")
    ∷ (Errors.mm_couldnt_add_monitor_scraper, "kekmonitors::ERRORS::MM_COULDNT_ADD_MONITOR_SCRAPER")
    ∷ (Errors.mm_couldnt_stop_monitor, "kekmonitors::ERRORS::MM_COULDNT_STOP_MONITOR")
    ∷ (Errors.mm_couldnt_stop_scraper, "kekmonitors::ERRORS::MM_COULDNT_STOP_SCRAPER")
    ∷ (
      Errors.mm_couldnt_stop_monitor_scraper,
      "kekmonitors::ERRORS::MM_COULDNT_STOP_MONITOR_SCRAPER",
    )
    ∷ (Errors.other_error, "kekmonitors::ERRORS::OTHER_ERROR")
    ∷ (Errors.unknown_error, "kekmonitors::ERRORS::UNKNOWN_ERROR")
    ∷ []

at_or_raise {ℓ} : {A : Type ℓ} → Option A → Try A
at_or_raise none = raises out_of_range
at_or_raise (some a) = returns a

module _ {M : Type 0} ⦃b : BimapApi M⦄ where
  -- `CORE_REGISTER_COMMAND(cmd)` and `CORE_REGISTER_ERROR(err)`: the code and the spelled argument.
  unfoldable pub core_register : ℕ → String → M → M
  unfolding get_string_without_namespaces
  core_register code text m = b.insert code (get_string_without_namespaces text) m

  unfoldable pub init_command_map : List (Commands × String) → M → M
  unfolding core_register
  init_command_map [] m = m
  init_command_map ((cmd, text) ∷ rest) m =
      init_command_map rest (core_register (command_type cmd) text m)

  unfoldable pub init_error_map : List (Errors × String) → M → M
  unfolding core_register
  init_error_map [] m = m
  init_error_map ((err, text) ∷ rest) m =
      init_error_map rest (core_register (error_type err) text m)

  -- `initMaps`, on the two maps that start empty.
  unfoldable pub init_maps : M × M
  init_maps = (init_command_map core_commands b.empty, init_error_map core_errors b.empty)

  unfoldable pub string_to_command : M → String → Try CommandType
  unfolding at_or_raise
  string_to_command commands str = at_or_raise (b.right_at commands str)

  unfoldable pub command_to_string : M → CommandType → Try String
  unfolding at_or_raise
  command_to_string commands cmd = at_or_raise (b.left_at commands cmd)

  unfoldable pub string_to_error : M → String → Try ErrorType
  unfolding at_or_raise
  string_to_error errors str = at_or_raise (b.right_at errors str)

  unfoldable pub error_to_string : M → ErrorType → Try String
  unfolding at_or_raise
  error_to_string errors err = at_or_raise (b.left_at errors err)
