-- ===== src/Moman/Stop.antt =====
-- `MonitorManager::onStop` of src/bin/moman/callbacks.cpp and the handlers that it starts.
use Prim.Native.String.{◌++◌}
use kekmonitors_cpp.Prelude.{String, Bool, true, none, some, find, assign, if◌then◌else◌}
use kekmonitors_cpp.Prelude.Outcome.{Outcome, done, throws, json_exception, system_error}
use kekmonitors_cpp.Core.Bimap.{BimapApi}
use kekmonitors_cpp.Core.Codes.{
  Errors, command_type, stop, MonitorOrScraper, monitor, scraper, mm_couldnt_stop_monitor,
  mm_couldnt_stop_scraper, missing_payload, missing_payload_args, socket_doesnt_exist, ErrorCode,
  is_error,
}
use kekmonitors_cpp.Json.{JsonApi}
use kekmonitors_cpp.Msg.Cmd.{Cmd, then_convert}
use kekmonitors_cpp.Msg.Response.{Response}
use kekmonitors_cpp.Moman.State.{
  StoredObject, Callback, stop_write, stop_read, System, stored, set_stored, start,
}
use kekmonitors_cpp.Moman.Reply.{call_back}
use kekmonitors_cpp.Moman.Add.{error_response, kind_name}
use kekmonitors_cpp.Moman.Processes.{remove_stored_socket}

abbrev pub stop_error : MonitorOrScraper → Errors
stop_error monitor = mm_couldnt_stop_monitor
stop_error scraper = mm_couldnt_stop_scraper

module _ {Json M : Type 0} ⦃J : JsonApi Json⦄ ⦃b : BimapApi M⦄ (errors : M) where
  -- The object is marked before the connection is made; `connects` tells whether `connect` succeeds.
  -- Then the write of STOP to it is started.
  unfoldable pub stop_connect :
      MonitorOrScraper
      → String
      → Callback
      → (String → Bool)
      → StoredObject
      → String
      → System Json
      → Outcome (System Json)
  unfolding command_type
  stop_connect m class_name cb connects obj ep s =
      let marked =
        set_stored m (assign class_name (record obj { is_being_stopped = true }) (stored m s)) s in
      if connects ep
      then done (start (stop_write m class_name cb ep (command_type stop)) marked)
      else throws system_error marked

  -- `onStop` once the class name is read.
  unfoldable pub stop_named :
      MonitorOrScraper → String → Callback → (String → Bool) → System Json → Outcome (System Json)
  unfolding stop_connect call_back error_response
  stop_named m class_name cb connects s =
      let absent =
        call_back errors cb
          (error_response socket_doesnt_exist
            (kind_name m ++ (" " ++ (class_name ++ " not present in available sockets."))))
          s in
      elim (find class_name (stored m s)) [
        | none ↦ absent
        | some obj ↦ elim obj.endpoint [
          | none ↦ absent
          | some ep ↦
              if obj.is_being_stopped
              then call_back errors cb
                  (error_response (stop_error m)
                    (kind_name m ++ (" " ++ (class_name ++ " is already being stopped."))))
                  s
              else stop_connect m class_name cb connects obj ep s
        ]
      ]

  unfoldable pub on_stop :
      MonitorOrScraper → Cmd Json → Callback → (String → Bool) → System Json → Outcome (System Json)
  unfolding call_back error_response stop_named
  on_stop m cmd cb connects s =
      if J.is_null cmd.payload
      then call_back errors cb (error_response missing_payload "") s
      else if J.contains cmd.payload "name"
      then (elim (then_convert (J.at cmd.payload "name") J.as_string) [
        | none ↦ throws json_exception s
        | some class_name ↦ stop_named m class_name cb connects s
      ])
      else call_back errors cb
          (error_response missing_payload_args "Missing payload arg: \"name\".") s

  -- The handler of `asyncWriteCmd`; `message` is that of the error.
  unfoldable pub on_stop_written :
      ErrorCode
      → String
      → MonitorOrScraper
      → String
      → Callback
      → System Json
      → Outcome (System Json)
  unfolding remove_stored_socket is_error call_back error_response
  on_stop_written ec message m class_name cb s =
      let removed = set_stored m (remove_stored_socket class_name (stored m s)) s in
      if is_error ec
      then call_back errors cb
          (error_response (stop_error m) ("Failed to send the STOP command: " ++ message)) removed
      else done (start (stop_read cb) removed)

  -- The handler of `asyncReadResponse`, which answers with the response that it is given.
  unfoldable pub on_stop_read :
      ErrorCode → Response Json → Callback → System Json → Outcome (System Json)
  unfolding call_back
  on_stop_read ec response cb s = call_back errors cb response s
