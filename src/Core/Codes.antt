-- ===== src/Core/Codes.antt =====
-- The command and error codes of include/kekmonitors/core.hpp. A code is a `uint32_t`, since a
-- monitor may use codes of its own behind the last one listed here.
use kekmonitors_cpp.Prelude.{Bool, true, false, ℕ, ◌+◌, ◌^◌}

-- `typedef uint32_t CommandType`: the values below 2 ^ 32.
abbrev pub CommandType : Type 0
CommandType = ℕ

abbrev pub ErrorType : Type 0
ErrorType = ℕ

abbrev pub u32_mod : ℕ
u32_mod = 2 ^ 32

pub data Commands : Type 0 where
  ping : Commands
  stop : Commands
  set_shoes : Commands
  add_shoes : Commands
  get_shoes : Commands
  get_config : Commands
  get_whitelist : Commands
  get_blacklist : Commands
  get_webhooks : Commands
  set_specific_config : Commands
  set_specific_webhooks : Commands
  set_specific_blacklist : Commands
  set_specific_whitelist : Commands
  set_common_config : Commands
  set_common_webhooks : Commands
  set_common_blacklist : Commands
  set_common_whitelist : Commands
  mm_add_monitor : Commands
  mm_add_scraper : Commands
  mm_add_monitor_scraper : Commands
  mm_stop_monitor : Commands
  mm_stop_scraper : Commands
  mm_stop_monitor_scraper : Commands
  mm_stop_monitor_manager : Commands
  mm_get_monitor_status : Commands
  mm_get_scraper_status : Commands
  mm_get_monitor_scraper_status : Commands
  mm_set_monitor_config : Commands
  mm_get_monitor_config : Commands
  mm_set_monitor_whitelist : Commands
  mm_get_monitor_whitelist : Commands
  mm_set_monitor_blacklist : Commands
  mm_get_monitor_blacklist : Commands
  mm_set_monitor_webhooks : Commands
  mm_get_monitor_webhooks : Commands
  mm_set_scraper_config : Commands
  mm_get_scraper_config : Commands
  mm_set_scraper_whitelist : Commands
  mm_get_scraper_whitelist : Commands
  mm_set_scraper_blacklist : Commands
  mm_get_scraper_blacklist : Commands
  mm_set_scraper_webhooks : Commands
  mm_get_scraper_webhooks : Commands
  mm_set_monitor_scraper_blacklist : Commands
  mm_set_monitor_scraper_whitelist : Commands
  mm_set_monitor_scraper_webhooks : Commands
  mm_set_monitor_scraper_config : Commands
  mm_get_monitor_shoes : Commands
  mm_get_scraper_shoes : Commands

-- The enumerators' values.
unfoldable pub command_type : Commands → CommandType
command_type ping = 1
command_type stop = 2
command_type set_shoes = 3
command_type add_shoes = 4
command_type get_shoes = 5
command_type get_config = 6
command_type get_whitelist = 7
command_type get_blacklist = 8
command_type get_webhooks = 9
command_type set_specific_config = 10
command_type set_specific_webhooks = 11
command_type set_specific_blacklist = 12
command_type set_specific_whitelist = 13
command_type set_common_config = 14
command_type set_common_webhooks = 15
command_type set_common_blacklist = 16
command_type set_common_whitelist = 17
command_type mm_add_monitor = 18
command_type mm_add_scraper = 19
command_type mm_add_monitor_scraper = 20
command_type mm_stop_monitor = 21
command_type mm_stop_scraper = 22
command_type mm_stop_monitor_scraper = 23
command_type mm_stop_monitor_manager = 24
command_type mm_get_monitor_status = 25
command_type mm_get_scraper_status = 26
command_type mm_get_monitor_scraper_status = 27
command_type mm_set_monitor_config = 28
command_type mm_get_monitor_config = 29
command_type mm_set_monitor_whitelist = 30
command_type mm_get_monitor_whitelist = 31
command_type mm_set_monitor_blacklist = 32
command_type mm_get_monitor_blacklist = 33
command_type mm_set_monitor_webhooks = 34
command_type mm_get_monitor_webhooks = 35
command_type mm_set_scraper_config = 36
command_type mm_get_scraper_config = 37
command_type mm_set_scraper_whitelist = 38
command_type mm_get_scraper_whitelist = 39
command_type mm_set_scraper_blacklist = 40
command_type mm_get_scraper_blacklist = 41
command_type mm_set_scraper_webhooks = 42
command_type mm_get_scraper_webhooks = 43
command_type mm_set_monitor_scraper_blacklist = 44
command_type mm_set_monitor_scraper_whitelist = 45
command_type mm_set_monitor_scraper_webhooks = 46
command_type mm_set_monitor_scraper_config = 47
command_type mm_get_monitor_shoes = 48
command_type mm_get_scraper_shoes = 49

pub data Errors : Type 0 where
  ok : Errors
  socket_doesnt_exist : Errors
  socket_couldnt_connect : Errors
  socket_timeout : Errors
  monitor_doesnt_exist : Errors
  scraper_doesnt_exist : Errors
  monitor_not_registered : Errors
  scraper_not_registered : Errors
  unrecognized_command : Errors
  bad_payload : Errors
  missing_payload : Errors
  missing_payload_args : Errors
  mm_couldnt_add_monitor : Errors
  mm_couldnt_add_scraper : Errors
  mm_couldnt_add_monitor_scraper : Errors
  mm_couldnt_stop_monitor : Errors
  mm_couldnt_stop_scraper : Errors
  mm_couldnt_stop_monitor_scraper : Errors
  other_error : Errors
  unknown_error : Errors

-- The enumerators' values.
unfoldable pub error_type : Errors → ErrorType
error_type ok = 0
error_type socket_doesnt_exist = 1
error_type socket_couldnt_connect = 2
error_type socket_timeout = 3
error_type monitor_doesnt_exist = 4
error_type scraper_doesnt_exist = 5
error_type monitor_not_registered = 6
error_type scraper_not_registered = 7
error_type unrecognized_command = 8
error_type bad_payload = 9
error_type missing_payload = 10
error_type missing_payload_args = 11
error_type mm_couldnt_add_monitor = 12
error_type mm_couldnt_add_scraper = 13
error_type mm_couldnt_add_monitor_scraper = 14
error_type mm_couldnt_stop_monitor = 15
error_type mm_couldnt_stop_scraper = 16
error_type mm_couldnt_stop_monitor_scraper = 17
error_type other_error = 18
error_type unknown_error = 19

-- `KEKMONITORS_FIRST_CUSTOM_COMMAND` and `KEKMONITORS_FIRST_CUSTOM_ERROR`.
unfoldable pub first_custom_command : CommandType
unfolding command_type
first_custom_command = command_type mm_get_scraper_shoes + 1

unfoldable pub first_custom_error : ErrorType
unfolding error_type
first_custom_error = error_type unknown_error + 1

pub data MonitorOrScraper : Type 0 where
  monitor scraper : MonitorOrScraper

-- `boost::system::error_code`, by the conditions that the code tests.
pub data ErrorCode : Type 0 where
  success invalid_argument eof operation_aborted bad_file_descriptor : ErrorCode
  other_code : ℕ → ErrorCode

-- `if (ec)`.
unfoldable pub is_error : ErrorCode → Bool
is_error success = false
is_error _ = true
