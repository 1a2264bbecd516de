-- ===== src/Tests/Messages.antt =====
-- The theorems on names, messages, responses and the server, at concrete inputs.
use kekmonitors_cpp.Prelude.{
  ℕ, ◌+◌, String, ◌≡◌, ◌≢◌, refl, ◌⊎◌, ◌↔◌, inr, true, none, some, List, [], ◌∷◌, arith,
}
use kekmonitors_cpp.Prelude.Outcome.{
  returns, raises, Outcome, done, throws, out_of_range, invalid_argument,
}
use kekmonitors_cpp.Text.{rfind}
use kekmonitors_cpp.Core.Codes.{
  u32_mod, error_type, first_custom_error, first_custom_command, command_type, CommandType,
  is_error, success, eof, operation_aborted, bad_file_descriptor, mm_couldnt_add_monitor_scraper,
  ok, ErrorCode,
}
use kekmonitors_cpp.Core.Codes
use kekmonitors_cpp.Core.Names.{
  init_maps, string_to_command, command_to_string, string_to_error, error_to_string,
}
use kekmonitors_cpp.Core.Registered.{
  string_to_command-command_to_string, string_to_error-error_to_string,
}
use kekmonitors_cpp.Msg.Cmd.{Cmd}
use kekmonitors_cpp.Msg.Cmd
use kekmonitors_cpp.Msg.Response.{Response}
use kekmonitors_cpp.Msg.Response
use kekmonitors_cpp.Msg.RoundTrip.{
  cmd-from_json-from_json_ec, response-from_json-from_json_ec, cmd-from_string-to_string,
  response-from_string-to_string,
}
use kekmonitors_cpp.Connection.{fill, new_connection, on_read_cmd, quick_write_cmd, answered}
use kekmonitors_cpp.Connection.Arrival.{on_read_cmd-fill, quick_write_cmd-answered}
use kekmonitors_cpp.Utils.Common.{make_common_response}
use kekmonitors_cpp.Utils.CommonLaws.{make_common_response-error, make_common_response-custom}
use kekmonitors_cpp.Server.{UnixServer, callback_at, handle_callback}
use kekmonitors_cpp.Server.Answers.{handle_callback_lem}
use kekmonitors_cpp.Tests.SampleJson.{
  SampleJson, null, text, sample_json, ping_json, sample_text, sample_error_text,
}
use kekmonitors_cpp.Tests.SampleBimap.{Pairs, sample_bimap}

abbrev ping_cmd : Cmd SampleJson
ping_cmd = record { cmd = 1; payload = null }

abbrev named_cmd : Cmd SampleJson
named_cmd = record { cmd = 6; payload = text "name" }

abbrev failure : Response SampleJson
failure = record { error = 3; info = "why"; payload = null }

abbrev custom_failure : Response SampleJson
custom_failure = record { error = 2000; info = "why"; payload = null }

abbrev bare_failure : Response SampleJson
bare_failure = record { error = 3; info = ""; payload = null }

abbrev fine : Response SampleJson
fine = record { error = 0; info = ""; payload = null }

abbrev known_errors : Pairs
known_errors = (3, "SOME_ERROR") ∷ []

abbrev joint_failure : Response SampleJson
joint_failure = record {
  error = error_type mm_couldnt_add_monitor_scraper;
  info = "SOME_ERROR: why ";
  payload = null;
}

string_to_command-command_to_string_example :
    (name : String) × (rfind "::" name ≡ none)
    × (command_to_string (init_maps {M = Pairs}).0 4 ≡ returns name)
    × (string_to_command (init_maps {M = Pairs}).0 name ≡ returns 4)
unfolding command_type first_custom_command
string_to_command-command_to_string_example =
    string_to_command-command_to_string Pairs 4 (omega arith) (omega arith)

string_to_error-error_to_string_example :
    (name : String) × (rfind "::" name ≡ none)
    × (error_to_string (init_maps {M = Pairs}).1 7 ≡ returns name)
    × (string_to_error (init_maps {M = Pairs}).1 name ≡ returns 7)
unfolding first_custom_error
string_to_error-error_to_string_example = string_to_error-error_to_string Pairs 7 (omega arith)

cmd-from_json-from_json_ec_example :
    ((Cmd.from_json ping_json ≡ raises invalid_argument)
      × ((Cmd.from_json_ec ping_json success).1 ≡ Codes.invalid_argument))
    ⊎ ((Cmd.from_json ping_json ≡ returns (Cmd.from_json_ec ping_json success).0)
        × ((Cmd.from_json_ec ping_json success).1 ≡ success))
cmd-from_json-from_json_ec_example = cmd-from_json-from_json_ec ping_json success

response-from_json-from_json_ec_example :
    ((Response.from_json ping_json ≡ raises invalid_argument)
      × ((Response.from_json_ec ping_json success).1 ≡ Codes.invalid_argument))
    ⊎ ((Response.from_json ping_json ≡ returns (Response.from_json_ec ping_json success).0)
        × ((Response.from_json_ec ping_json success).1 ≡ success))
response-from_json-from_json_ec_example = response-from_json-from_json_ec ping_json success

cmd-from_string-to_string_example :
    (Cmd.from_string sample_text (Cmd.to_string sample_text ping_cmd) ≡ returns ping_cmd)
    × (Cmd.from_string_ec sample_text (Cmd.to_string sample_text ping_cmd) success
        ≡ (ping_cmd, success))
unfolding Cmd.to_json
cmd-from_string-to_string_example =
    cmd-from_string-to_string sample_text ping_cmd success (omega arith) refl

response-from_string-to_string_example :
    (Response.from_string sample_error_text (Response.to_string sample_error_text bare_failure)
      ≡ returns bare_failure)
    × (Response.from_string_ec sample_error_text
          (Response.to_string sample_error_text bare_failure)
          success
        ≡ (bare_failure, success))
unfolding Response.to_json
response-from_string-to_string_example =
    response-from_string-to_string sample_error_text bare_failure success (omega arith) refl

make_common_response-error_example :
    ((joint_failure.error ≡ 0) ↔ ((failure.error ≡ 0) × (fine.error ≡ 0)))
    × ((joint_failure.error ≡ 0)
        ⊎ (joint_failure.error ≡ error_type mm_couldnt_add_monitor_scraper))
    × (joint_failure.payload ≡ null)
unfolding make_common_response error_to_string
make_common_response-error_example =
    make_common_response-error known_errors failure fine joint_failure
      mm_couldnt_add_monitor_scraper (ground arith) refl

make_common_response-custom_example :
    make_common_response
      (init_maps {M = Pairs}).1
      failure
      custom_failure
      mm_couldnt_add_monitor_scraper
    ≡ raises out_of_range
unfolding first_custom_error
make_common_response-custom_example =
    make_common_response-custom Pairs failure custom_failure mm_couldnt_add_monitor_scraper
      (inr (omega arith, omega arith))

-- A server whose state is the number of responses written.
abbrev count_write : ℕ → Response SampleJson → ℕ → ℕ
count_write c r n = n + 1

abbrev count_callbacks : List (CommandType × (Cmd SampleJson → ℕ → ℕ → Outcome ℕ))
count_callbacks = (1, λ cmd c n. done (n + 1)) ∷ (2, λ cmd c n. throws out_of_range n) ∷ []

handle_callback_lem_example :
    ((callback_at 1 count_callbacks ≡ none)
      × (handle_callback count_write count_callbacks success ping_cmd 0 5
          ≡ done (count_write 0 (record { error = 8; info = ""; payload = null }) 5)))
    ⊎ ((f : Cmd SampleJson → ℕ → ℕ → Outcome ℕ) × (callback_at 1 count_callbacks ≡ some f)
        × (((t : ℕ) × (f ping_cmd 0 5 ≡ throws out_of_range t)
              × (handle_callback count_write count_callbacks success ping_cmd 0 5
                  ≡ done (count_write 0 (record { error = 8; info = ""; payload = null }) t)))
            ⊎ (((t : ℕ) → f ping_cmd 0 5 ≢ throws out_of_range t)
                × (handle_callback count_write count_callbacks success ping_cmd 0 5
                    ≡ f ping_cmd 0 5))))
unfolding is_error
handle_callback_lem_example =
    handle_callback_lem count_write count_callbacks success ping_cmd 0 5 refl

abbrev open_server : UnixServer
open_server = record { is_open = true; accepting = some 3; reading = []; next_connection = 4 }

on_read_cmd-fill_example :
    on_read_cmd sample_text eof (fill (Cmd.to_string sample_text ping_cmd) new_connection)
    ≡ (ping_cmd, success)
unfolding Cmd.to_json Cmd.to_string
on_read_cmd-fill_example =
    on_read_cmd-fill sample_text ping_cmd eof refl (omega arith) refl (omega arith)

quick_write_cmd-answered_example :
    quick_write_cmd sample_error_text success eof
      (Response.to_string sample_error_text bare_failure)
      new_connection
    ≡ answered bare_failure
unfolding Response.to_json Response.to_string
quick_write_cmd-answered_example =
    quick_write_cmd-answered sample_error_text bare_failure eof refl (omega arith) refl
      (omega arith)
