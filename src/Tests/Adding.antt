-- ===== src/Tests/Adding.antt =====
-- A client that adds a monitor.
use kekmonitors_cpp.Prelude.{◌≡◌, refl, ◌∷◌, find}
use kekmonitors_cpp.Prelude.Outcome.{done}
use kekmonitors_cpp.Core.Codes.{success, command_type, monitor}
use kekmonitors_cpp.Core.Names.{init_maps, init_command_map, string_to_command}
use kekmonitors_cpp.Msg.Cmd.{Cmd}
use kekmonitors_cpp.Msg.Response.{ok_response}
use kekmonitors_cpp.Moman.State.{System}
use kekmonitors_cpp.Moman.Loop.{Ending, receives, ends, handle}
use kekmonitors_cpp.Cli.{sends, run}
use kekmonitors_cpp.Cli.Payload.{option_args}
use kekmonitors_cpp.Cli.Adding.{client-added}
use kekmonitors_cpp.Tests.Client.{no_stoi, shop_option}
use kekmonitors_cpp.Tests.SampleAdded.{no_errors, adding_world, reading_system}
use kekmonitors_cpp.Tests.SampleJson.{SampleJson, null, sample_json}
use kekmonitors_cpp.Tests.SampleBimap.{Pairs, sample_bimap}

abbrev expiry : Ending SampleJson
expiry = record {
  error = success;
  message = "";
  response = record { error = 0; info = ""; payload = null };
}

client-added_example :
    (c : Cmd SampleJson) × (t : System SampleJson) × (u : System SampleJson) × (run
        (init_maps {M = Pairs}).0
        no_stoi
        ("cli" ∷ "MM_ADD_MONITOR" ∷ option_args shop_option)
      ≡ sends c)
    × (handle no_errors adding_world (receives 0 success c) reading_system ≡ done t)
    × (handle no_errors adding_world (ends 0 expiry) t ≡ done u)
    × (t.replies ≡ reading_system.replies)
    × (u.replies ≡ (0, ok_response) ∷ reading_system.replies)
unfolding init_maps string_to_command init_command_map command_type find
client-added_example =
    client-added no_errors no_stoi "cli" "MM_ADD_MONITOR" shop_option monitor "shop" "python3"
      "/home/u/shop.py" (78, 2000) adding_world adding_world 0 0 expiry reading_system refl refl
      refl refl refl refl refl refl refl refl refl
