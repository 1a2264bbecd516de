-- ===== src/Moman/Status.antt =====
-- The commands of src/bin/moman/callbacks.cpp that report, and the shutdown.
use kekmonitors_cpp.Prelude.{ℕ, Bool, none, some, List, [], ◌∷◌, ◌++◌, Map, false}
use kekmonitors_cpp.Prelude.Outcome.{Outcome, undefined}
use kekmonitors_cpp.Core.Bimap.{BimapApi}
use kekmonitors_cpp.Core.Codes.{MonitorOrScraper}
use kekmonitors_cpp.Json.{JsonApi}
use kekmonitors_cpp.Msg.Response.{Response, new_response, ok_response}
use kekmonitors_cpp.Server.{shut_down}
use kekmonitors_cpp.Moman.State.{Process, StoredObject, Callback, System, stored}
use kekmonitors_cpp.Moman.Reply.{call_back}
use kekmonitors_cpp.Moman.Processes.{terminate_processes}

module _ {Json : Type 0} ⦃J : JsonApi Json⦄ where
  -- `Process::toJson`
  unfoldable pub process_json : Process → Json
  process_json p =
      J.put (J.put J.object "Started at" (J.of_integer p.creation)) "PID" (J.of_integer p.pid)

  -- The loop of `onGetStatus`, which writes under the objects' class names, from the first entry on.
  unfoldable pub monitored : Map StoredObject → Json → Json → Json × Json
  unfolding process_json
  monitored [] processes sockets = (processes, sockets)
  monitored ((k, obj) ∷ m) processes sockets =
      monitored m
        (elim obj.process [
          | none ↦ processes
          | some p ↦ J.put processes obj.class_name (process_json p)
        ])
        (elim obj.endpoint [
          | none ↦ sockets
          | some ep ↦ J.put sockets obj.class_name (J.of_string ep)
        ])

  unfoldable pub status_response : Map StoredObject → Response Json
  unfolding monitored new_response
  status_response m =
      let (processes, sockets) = monitored m J.object J.object in
      record new_response {
        payload = J.put (J.put J.null "monitored_processes" processes) "monitored_sockets" sockets;
      }

module _ {Json M : Type 0} ⦃J : JsonApi Json⦄ ⦃b : BimapApi M⦄ (errors : M) where
  unfoldable pub on_get_status : MonitorOrScraper → Callback → System Json → Outcome (System Json)
  unfolding status_response call_back
  on_get_status m cb s = call_back errors cb (status_response (stored m s)) s

  unfoldable pub on_ping : Callback → System Json → Outcome (System Json)
  unfolding ok_response call_back
  on_ping cb s = call_back errors cb (record ok_response { info = "Pong" }) s

  -- `MonitorManager::shutdown`: the watcher, the server, the processes, and then the answer; and the
  -- ids of the processes that are killed.
  unfoldable pub shutdown :
      Callback → (Process → Bool) → System Json → Outcome (System Json) × List ℕ
  unfolding terminate_processes ok_response call_back shut_down
  shutdown cb running s =
      let closed = record s { server = shut_down s.server; watching = false } in
      elim (terminate_processes running s.monitors) [
        | none ↦ (undefined, [])
        | some (monitors, killed) ↦ elim (terminate_processes running s.scrapers) [
          | none ↦ (undefined, [])
          | some (scrapers, killed') ↦ (
            call_back errors cb ok_response
                (record closed { monitors = monitors; scrapers = scrapers }),
            killed ++ killed',
          )
        ]
      ]
