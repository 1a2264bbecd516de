-- ===== src/Tests/SampleAdded.antt =====
-- A client has added a monitor, from the start of the manager on.
use kekmonitors_cpp.Prelude.{◌≡◌, true, false, none, refl, some, [], ◌∷◌, find, emplace}
use kekmonitors_cpp.Prelude.Outcome.{done}
use kekmonitors_cpp.Core.Codes.{success, is_error, command_type, monitor}
use kekmonitors_cpp.Msg.Cmd.{Cmd}
use kekmonitors_cpp.Server.{
  new_server, start_accepting, on_connect, handle_callback, recover, callback_at,
}
use kekmonitors_cpp.Moman.State.{
  StoredObject, new_stored_object, add_wait, direct, System, empty_system,
}
use kekmonitors_cpp.Moman.Add.{
  registered, on_add, add_named, add_registered, started, store_process, stored_refusal,
}
use kekmonitors_cpp.Moman.Start.{init, find_sockets}
use kekmonitors_cpp.Moman.Watcher.{first_watches, watch_sub_dirs, watch_files, add_watch}
use kekmonitors_cpp.Moman.Loop.{
  World, accepts, receives, callback_map, receive, handle, step, Reach, here, next,
}
use kekmonitors_cpp.Tests.SampleStart.{sample_start, start_watches}
use kekmonitors_cpp.Tests.SampleJson.{SampleJson, object, field, text, end, sample_json}
use kekmonitors_cpp.Tests.SampleBimap.{Pairs, sample_bimap}

abbrev pub no_errors : Pairs
no_errors = []

-- Each class is registered, and each process starts and runs.
abbrev pub adding_world : World
adding_world = record {
  add = record {
    python_executable = done "python3";
    find_one = λ m name. registered (some "/home/u/shop.py");
    spawn = λ line. some (78, 2000);
  };
  connects = λ path. false;
  running = λ p. true;
}

abbrev pub add_shop : Cmd SampleJson
add_shop = record { cmd = 18; payload = object (field "name" (text "shop") end) }

abbrev pub added_object : StoredObject
added_object = record {
  process = some (record { class_name = "shop"; pid = 78; creation = 2000 });
  endpoint = none;
  on_add_timer = some 0;
  class_name = "shop";
  is_being_added = true;
  is_being_stopped = false;
  confirm_added = false;
}

abbrev pub added_system : System SampleJson
added_system = record {
  monitors = ("shop", added_object) ∷ [];
  scrapers = [];
  completions = [];
  pending = add_wait 0 monitor "shop" (direct 0) ∷ [];
  replies = [];
  next_timer = 1;
  cancelled = [];
  server = record { is_open = true; accepting = some 1; reading = []; next_connection = 2 };
  watching = true;
  watches = start_watches;
  sendings = [];
}

-- Before it: the client's command is being read.
abbrev pub reading_system : System SampleJson
reading_system = record added_system {
  monitors = [];
  pending = [];
  next_timer = 0;
  server = record { is_open = true; accepting = some 1; reading = 0 ∷ []; next_connection = 2 };
}

pub Reach-init-reading : Reach no_errors (init sample_start) reading_system
unfolding init first_watches watch_sub_dirs watch_files add_watch find_sockets empty_system
    new_server start_accepting handle on_connect is_error
Reach-init-reading = next here (step adding_world (accepts success) tt refl)

pub handle-add_shop :
    handle no_errors adding_world (receives 0 success add_shop) reading_system ≡ done added_system
unfolding handle receive handle_callback callback_map callback_at recover on_add add_named
    add_registered started store_process stored_refusal new_stored_object find emplace command_type
    is_error
handle-add_shop = refl

pub Reach-init-added : Reach no_errors (init sample_start) added_system
Reach-init-added =
    next Reach-init-reading (step adding_world (receives 0 success add_shop) tt handle-add_shop)
