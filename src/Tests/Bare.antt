-- ===== src/Tests/Bare.antt =====
-- A monitor whose process exits and leaves its socket, from the start of the manager on.
use kekmonitors_cpp.Prelude.{◌≡◌, ◌↔◌, refl, true, none, some, [], ◌∷◌, find, assign}
use kekmonitors_cpp.Prelude.Outcome.{undefined}
use kekmonitors_cpp.Core.Codes.{success, is_error, monitor}
use kekmonitors_cpp.Text.{rfind, take, drop}
use kekmonitors_cpp.Moman.State.{StoredObject, add_wait, verify_wait, confirm, direct, System}
use kekmonitors_cpp.Moman.Processes.{on_process_exit, remove_stored_process}
use kekmonitors_cpp.Moman.Sockets.{
  update_list, parse_socket_name, check_socket_and_update_list, socket_name_of,
  verify_socket_is_communicating,
}
use kekmonitors_cpp.Moman.Watcher.{
  on_inotify_update, on_inotify_batch, is_erased, erased_after, on_inotify_event,
}
use kekmonitors_cpp.Moman.Start.{init}
use kekmonitors_cpp.Moman.Loop.{Event, ends, exits, notifies, handle, step, Reach, next}
use kekmonitors_cpp.Moman.Defined.Rounds.{expires_bare, handle-undefined}
use kekmonitors_cpp.Tests.SampleStart.{sample_start, sample_watcher, socket_created}
use kekmonitors_cpp.Tests.SampleAdded.{
  no_errors, adding_world, added_object, added_system, Reach-init-added,
}
use kekmonitors_cpp.Tests.SampleJson.{SampleJson, null, sample_json}
use kekmonitors_cpp.Tests.SampleBimap.{sample_bimap}

abbrev bare_object : StoredObject
bare_object = record added_object { process = none; endpoint = some "/tmp/Monitor.shop" }

abbrev bare_system : System SampleJson
bare_system = record added_system {
  monitors = ("shop", bare_object) ∷ [];
  pending =
      verify_wait 1 monitor "/tmp/Monitor.shop" "shop" confirm
      ∷ add_wait 0 monitor "shop" (direct 0)
      ∷ [];
  next_timer = 2;
}

Reach-init-bare : Reach no_errors (init sample_start) bare_system
unfolding handle on_inotify_update on_inotify_batch is_erased erased_after on_inotify_event
    check_socket_and_update_list socket_name_of parse_socket_name update_list
    verify_socket_is_communicating rfind take drop find assign on_process_exit remove_stored_process
    is_error
Reach-init-bare =
    next
      (next Reach-init-added
        (step adding_world (notifies sample_watcher (socket_created ∷ [])) tt refl))
      (step adding_world (exits success monitor "shop") tt refl)

abbrev expired : Event SampleJson
expired = ends 1 (record {
  error = success;
  message = "";
  response = record { error = 0; info = ""; payload = null };
})

handle-undefined_example :
    (handle no_errors adding_world expired bare_system ≡ undefined)
    ↔ (expires_bare expired bare_system ≡ true)
handle-undefined_example =
    handle-undefined no_errors sample_start Reach-init-bare adding_world expired refl tt
