-- ===== src/Tests/Answers.antt =====
-- A client that is answered, from the start of the manager on.
use kekmonitors_cpp.Prelude.{ℕ, ◌+◌, ◌≤◌, refl, true, false, none, some, List, [], ◌∷◌}
use kekmonitors_cpp.Prelude.Outcome.{throws, no_python}
use kekmonitors_cpp.Core.Codes.{success, is_error, error_type, command_type}
use kekmonitors_cpp.Msg.Cmd.{Cmd}
use kekmonitors_cpp.Msg.Response.{Response, ok_response, new_response}
use kekmonitors_cpp.Server.{
  UnixServer, new_server, start_accepting, on_connect, handle_callback, recover, callback_at,
}
use kekmonitors_cpp.Moman.State.{System, empty_system}
use kekmonitors_cpp.Moman.Reply.{call_back, write_response}
use kekmonitors_cpp.Moman.Status.{on_ping}
use kekmonitors_cpp.Moman.Add.{not_registered}
use kekmonitors_cpp.Moman.Start.{init, find_sockets}
use kekmonitors_cpp.Moman.Watcher.{first_watches, watch_sub_dirs, watch_files, add_watch}
use kekmonitors_cpp.Tests.SampleStart.{sample_start, start_watches}
use kekmonitors_cpp.Moman.Loop.{
  World, accepts, receives, callback_map, receive, handle, Step, step, Reach, here, next,
}
use kekmonitors_cpp.Moman.OneAnswer.Count.{answers, occurrences, waits}
use kekmonitors_cpp.Moman.OneAnswer.Rounds.{answers_once}
use kekmonitors_cpp.Tests.SampleJson.{SampleJson, null, sample_json}
use kekmonitors_cpp.Tests.SampleBimap.{Pairs, sample_bimap}

abbrev no_errors : Pairs
no_errors = []

abbrev idle_world : World
idle_world = record {
  add = record {
    python_executable = throws no_python "";
    find_one = λ m name. not_registered;
    spawn = λ line. none;
  };
  connects = λ path. false;
  running = λ p. false;
}

abbrev client_ping : Cmd SampleJson
client_ping = record { cmd = 1; payload = null }

abbrev pong : Response SampleJson
pong = record { error = 0; info = "Pong"; payload = null }

abbrev system_with : UnixServer → List (ℕ × Response SampleJson) → System SampleJson
system_with server replies = record {
  monitors = [];
  scrapers = [];
  completions = [];
  pending = [];
  replies = replies;
  next_timer = 0;
  cancelled = [];
  server = server;
  watching = true;
  watches = start_watches;
  sendings = [];
}

abbrev waiting_server : UnixServer
waiting_server = record { is_open = true; accepting = some 0; reading = []; next_connection = 1 }

abbrev reading_server : UnixServer
reading_server = record {
  is_open = true;
  accepting = some 1;
  reading = 0 ∷ [];
  next_connection = 2;
}

abbrev read_server : UnixServer
read_server = record { is_open = true; accepting = some 1; reading = []; next_connection = 2 }

Step-accept : Step no_errors (system_with waiting_server []) (system_with reading_server [])
unfolding handle on_connect start_accepting is_error
Step-accept = step idle_world (accepts success) tt refl

Step-answer :
    Step no_errors (system_with reading_server []) (system_with read_server ((0, pong) ∷ []))
unfolding handle receive handle_callback callback_map callback_at recover is_error on_ping call_back
    write_response ok_response new_response error_type command_type
Step-answer = step idle_world (receives 0 success client_ping) tt refl

Reach-init-pong : Reach no_errors (init sample_start) (system_with read_server ((0, pong) ∷ []))
unfolding init first_watches watch_sub_dirs watch_files add_watch find_sockets empty_system
    new_server start_accepting
Reach-init-pong = next (next here Step-accept) Step-answer

answers_once_example : answers 0 ((0, pong) ∷ []) + occurrences 0 [] + waits 0 (some 1) ≤ 1
answers_once_example = answers_once no_errors sample_start Reach-init-pong 0
