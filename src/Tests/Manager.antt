-- ===== src/Tests/Manager.antt =====
-- The theorems on the manager, at concrete states.
use kekmonitors_cpp.Prelude.{String, ◌≡◌, refl, true, false, none, some, [], ◌∷◌, Map, find}
use kekmonitors_cpp.Prelude.Outcome.{raises, returns, done, throws}
use kekmonitors_cpp.Core.Codes.{MonitorOrScraper, monitor, scraper}
use kekmonitors_cpp.Msg.Cmd.{Cmd}
use kekmonitors_cpp.Msg.Response.{Response}
use kekmonitors_cpp.Text.{rfind, take, drop}
use kekmonitors_cpp.Server.{new_server}
use kekmonitors_cpp.Moman.State.{
  Process, StoredObject, Completion, joint_add, System, direct, half, empty_system, verify_wait,
  register,
}
use kekmonitors_cpp.Moman.Reply.{joint_response, write_response, call_back}
use kekmonitors_cpp.Moman.Add.{Registered, registered, not_registered, AddWorld, on_add}
use kekmonitors_cpp.Moman.Processes.{terminate_processes}
use kekmonitors_cpp.Moman.Sockets.{
  update_list, parse_socket_name, check_socket_and_update_list, socket_name_of,
  verify_socket_is_communicating,
}
use kekmonitors_cpp.Moman.Start.{init, find_sockets}
use kekmonitors_cpp.Server.{start_accepting}
use kekmonitors_cpp.Moman.Watcher.{
  first_watches, watch_sub_dirs, watch_files, add_watch, on_inotify_update, on_inotify_batch,
  is_erased, erased_after, on_inotify_event,
}
use kekmonitors_cpp.Tests.SampleStart.{sample_start, start_watches, sample_watcher, socket_created}
use kekmonitors_cpp.Moman.Loop.{World, Reach, here, next, step, notifies, handle}
use kekmonitors_cpp.Moman.Invariant.Base.{Inv}
use kekmonitors_cpp.Moman.Invariant.Rounds.{Reach-init-Inv}
use kekmonitors_cpp.Moman.Terminate.{survivors, victims, terminate_processes_lem}
use kekmonitors_cpp.Moman.Outcomes.{AddResult, on_add-AddResult}
use kekmonitors_cpp.Moman.Joined.{after_first, call_back_twice}
use kekmonitors_cpp.Tests.SampleJson.{
  SampleJson, null, number, text, object, field, end, sample_json,
}
use kekmonitors_cpp.Tests.SampleBimap.{Pairs, sample_bimap}

abbrev sample_errors : Pairs
sample_errors = (3, "SOME_ERROR") ∷ []

abbrev sample_process : Process
sample_process = record { class_name = "shop"; pid = 77; creation = 1000 }

-- A monitor whose process was just started.
abbrev adding_object : StoredObject
adding_object = record {
  process = some sample_process;
  endpoint = none;
  on_add_timer = some 0;
  class_name = "shop";
  is_being_added = true;
  is_being_stopped = false;
  confirm_added = false;
}

abbrev socket_object : StoredObject
socket_object = record adding_object { endpoint = some "/tmp/Monitor.shop" }

abbrev sample_objects : Map StoredObject
sample_objects = ("shop", adding_object) ∷ ("store", socket_object) ∷ []

abbrev sample_completion : Completion SampleJson
sample_completion = record {
  both_completed = false;
  cmd = record { cmd = 20; payload = null };
  joint = joint_add;
  connection = 4;
  first_response = record { error = 0; info = ""; payload = null };
}

abbrev sample_system : System SampleJson
sample_system = record {
  monitors = sample_objects;
  scrapers = [];
  completions = sample_completion ∷ [];
  pending = [];
  replies = [];
  next_timer = 1;
  cancelled = [];
  server = record { is_open = true; accepting = none; reading = []; next_connection = 5 };
  watching = true;
  watches = [];
  sendings = [];
}

-- A register with one script.
abbrev find_script : MonitorOrScraper → String → Registered
find_script monitor name = registered (some "/home/user/shop.py")
find_script scraper name = not_registered

abbrev sample_add_world : AddWorld
sample_add_world = record {
  python_executable = done "python3";
  find_one = find_script;
  spawn = λ line. some (78, 2000);
}

abbrev sample_world : World
sample_world = record { add = sample_add_world; connects = λ path. false; running = λ p. true }

abbrev add_cmd : Cmd SampleJson
add_cmd = record { cmd = 18; payload = object (field "name" (text "new") end) }

abbrev bad_name_cmd : Cmd SampleJson
bad_name_cmd = record { cmd = 18; payload = object (field "name" (number 5) end) }

abbrev fine_response : Response SampleJson
fine_response = record { error = 0; info = ""; payload = null }

abbrev failed_response : Response SampleJson
failed_response = record { error = 3; info = "late"; payload = null }

terminate_processes_lem_example :
    terminate_processes (λ p. true) sample_objects
    ≡ some (survivors sample_objects, victims (λ p. true) sample_objects)
terminate_processes_lem_example = terminate_processes_lem (λ p. true) sample_objects

on_add-AddResult_example :
    AddResult monitor add_cmd 4 sample_add_world sample_system
      (on_add sample_errors monitor add_cmd (direct 4) sample_add_world sample_system)
on_add-AddResult_example =
    on_add-AddResult sample_errors monitor add_cmd 4 sample_add_world sample_system

call_back_twice_example :
    (call_back sample_errors (half 0) fine_response sample_system
      ≡ done (after_first 0 sample_completion fine_response sample_system))
    × (call_back sample_errors
          (half 0)
          failed_response
          (after_first 0 sample_completion fine_response sample_system)
        ≡ elim (joint_response sample_errors joint_add fine_response failed_response) [
          | raises e ↦ throws e (after_first 0 sample_completion fine_response sample_system)
          | returns r ↦
              done
                (write_response 4 r (after_first 0 sample_completion fine_response sample_system))
        ])
call_back_twice_example =
    call_back_twice sample_errors 0 sample_completion fine_response failed_response sample_system
      (after_first 0 sample_completion fine_response sample_system) refl refl refl

-- A socket appears whose process the manager did not start, and it does not answer.
abbrev found_system : System SampleJson
found_system = record {
  monitors = [];
  scrapers = [];
  completions = [];
  pending = verify_wait 0 monitor "/tmp/Monitor.shop" "shop" register ∷ [];
  replies = [];
  next_timer = 1;
  cancelled = [];
  server = record { is_open = true; accepting = some 0; reading = []; next_connection = 1 };
  watching = true;
  watches = start_watches;
  sendings = [];
}

Reach-init-found : Reach sample_errors (init sample_start) found_system
unfolding init first_watches watch_sub_dirs watch_files add_watch on_inotify_update on_inotify_batch
    is_erased erased_after on_inotify_event empty_system find_sockets start_accepting new_server
    handle check_socket_and_update_list socket_name_of parse_socket_name update_list
    verify_socket_is_communicating rfind take drop find
Reach-init-found =
    next here (step sample_world (notifies sample_watcher (socket_created ∷ [])) tt refl)

Reach-init-Inv_example : Inv found_system
Reach-init-Inv_example = Reach-init-Inv sample_errors sample_start Reach-init-found
