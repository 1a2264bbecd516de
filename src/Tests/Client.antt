-- ===== src/Tests/Client.antt =====
-- The theorems on the two tools, at concrete inputs.
use kekmonitors_cpp.Prelude.{
  ◌≤◌, ◌%◌, String, ◌≡◌, ◌↔◌, refl, true, false, none, some, List, [], ◌∷◌,
}
use kekmonitors_cpp.Prelude.Outcome.{
  Try, returns, raises, invalid_argument, out_of_range, done, throws, no_python,
}
use kekmonitors_cpp.Core.Codes.{success, is_error, command_type, first_custom_error}
use kekmonitors_cpp.Core.Names.{init_maps, init_command_map, core_commands, string_to_command}
use kekmonitors_cpp.Msg.Cmd.{Cmd}
use kekmonitors_cpp.Msg.Response.{Response, ok_response}
use kekmonitors_cpp.Moman.State.{System}
use kekmonitors_cpp.Moman.Add.{not_registered}
use kekmonitors_cpp.Moman.Loop.{World, receives, handle}
use kekmonitors_cpp.Cli.{
  ℤ, exits, sends, run, command_of, or_number, list_commands, Ended, exchange,
}
use kekmonitors_cpp.Cli.Payload.{option_args, last_value, has_keys, or_at}
use kekmonitors_cpp.Cli.Listing.{manager_names, list_commands-manager_names}
use kekmonitors_cpp.Cli.Runs.{run-named, run-errors}
use kekmonitors_cpp.Cli.Exchange.{exchange-raises}
use kekmonitors_cpp.Stopmm.{stop_cmd}
use kekmonitors_cpp.Stopmm.Stopped.{handle-stop_cmd}
use kekmonitors_cpp.Tests.SampleJson.{SampleJson, null, sample_json, sample_text}
use kekmonitors_cpp.Tests.SampleBimap.{Pairs, sample_bimap}

-- No text is a number.
abbrev pub no_stoi : String → Try ℤ
no_stoi text = raises invalid_argument

abbrev pub shop_option : List (String × String)
shop_option = ("name", "shop") ∷ []

list_commands-manager_names_example :
    list_commands (init_maps {M = Pairs}).0 ≡ returns (manager_names core_commands)
list_commands-manager_names_example = list_commands-manager_names Pairs

run-named_example :
    (c : Cmd SampleJson) × (run
        (init_maps {M = Pairs}).0
        no_stoi
        ("cli" ∷ "MM_ADD_MONITOR" ∷ option_args shop_option)
      ≡ sends c)
    × (c.cmd ≡ 18)
    × ((k : String) → sample_json.at c.payload k ≡ or_at (last_value shop_option k) none)
unfolding init_maps string_to_command init_command_map command_type
run-named_example = run-named Pairs no_stoi "cli" "MM_ADD_MONITOR" 18 shop_option refl refl

run-errors_example :
    (run {Json = SampleJson}
          (init_maps {M = Pairs}).0
          no_stoi
          ("cli" ∷ "PING" ∷ "name" ∷ "shop" ∷ [])
        ≡ exits 3
      ↔ (2 % 2 ≡ 1))
    × (run {Json = SampleJson}
            (init_maps {M = Pairs}).0
            no_stoi
            ("cli" ∷ "PING" ∷ "name" ∷ "shop" ∷ [])
          ≡ exits 4
        ↔ (2 % 2 ≡ 0) × (has_keys ("name" ∷ "shop" ∷ []) ≡ false))
unfolding init_maps string_to_command command_of or_number init_command_map command_type
run-errors_example = run-errors Pairs no_stoi "cli" "PING" 1 ("name" ∷ "shop" ∷ []) refl refl

abbrev ping_cmd : Cmd SampleJson
ping_cmd = record { cmd = 1; payload = null }

abbrev custom_response : Response SampleJson
custom_response = record { error = 2000; info = ""; payload = null }

abbrev fine : Ended
fine = record { error = success; message = "" }

exchange-raises_example :
    exchange sample_text (init_maps {M = Pairs}).1 (λ j. true) fine fine fine custom_response
      ≡ raises out_of_range
    ↔ (first_custom_error ≤ 2000)
unfolding is_error
exchange-raises_example =
    exchange-raises sample_text Pairs (λ j. true) fine fine fine custom_response refl refl refl

abbrev stopping_system : System SampleJson
stopping_system = record {
  monitors = [];
  scrapers = [];
  completions = [];
  pending = [];
  replies = [];
  next_timer = 0;
  cancelled = [];
  server = record { is_open = true; accepting = some 4; reading = 3 ∷ []; next_connection = 5 };
  watching = true;
  watches = [];
  sendings = [];
}

abbrev no_errors : Pairs
no_errors = []

abbrev quiet_world : World
quiet_world = record {
  add = record {
    python_executable = throws no_python "";
    find_one = λ m name. not_registered;
    spawn = λ line. none;
  };
  connects = λ path. false;
  running = λ p. false;
}

handle-stop_cmd_example :
    (t : System SampleJson) × (handle no_errors quiet_world
        (receives 0 success stop_cmd)
        stopping_system
      ≡ done t)
    × (t.server.is_open ≡ false)
    × (t.watching ≡ false)
    × (t.monitors ≡ [])
    × (t.scrapers ≡ [])
    × (t.replies ≡ (3, ok_response) ∷ [])
handle-stop_cmd_example = handle-stop_cmd no_errors quiet_world 0 3 stopping_system refl
