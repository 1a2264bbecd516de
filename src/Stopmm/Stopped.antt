-- ===== src/Stopmm/Stopped.antt =====
-- What the command of src/bin/stopmm.cpp does to the manager.
use kekmonitors_cpp.Prelude.{ℕ, ◌≡◌, refl, false, some, ◌∷◌, get_elem?, remove_at}
use kekmonitors_cpp.Prelude.Outcome.{done}
use kekmonitors_cpp.Core.Bimap.{BimapApi}
use kekmonitors_cpp.Core.Codes.{success, is_error, command_type}
use kekmonitors_cpp.Json.{JsonApi}
use kekmonitors_cpp.Msg.Response.{ok_response}
use kekmonitors_cpp.Server.{handle_callback, callback_at, recover, shut_down}
use kekmonitors_cpp.Moman.State.{System, direct}
use kekmonitors_cpp.Moman.Reply.{call_back, write_response}
use kekmonitors_cpp.Moman.Status.{shutdown}
use kekmonitors_cpp.Moman.Terminate.{survivors, terminate_processes_lem}
use kekmonitors_cpp.Moman.Loop.{World, receives, handle, receive, callback_map}
use kekmonitors_cpp.Stopmm.{stop_cmd}

module _ {Json M : Type 0} ⦃J : JsonApi Json⦄ ⦃b : BimapApi M⦄ (errors : M) where
  stopped : ℕ → System Json → System Json
  stopped c s = write_response c ok_response (record s {
    server = shut_down s.server;
    watching = false;
    monitors = survivors s.monitors;
    scrapers = survivors s.scrapers;
  })

  shutdown_lem :
      (w : World) (c : ℕ) (s : System Json)
      → (shutdown errors (direct c) w.running s).0 ≡ done (stopped c s)
  unfolding shutdown call_back stopped
  shutdown_lem w c s =
      rw
        (
          shutdown,
          terminate_processes_lem w.running s.monitors,
          terminate_processes_lem w.running s.scrapers,
        )
        refl

  -- The command is dispatched to `shutdown`.
  receive_lem :
      (w : World) (c : ℕ) (s : System Json)
      → receive errors w success stop_cmd c s
        ≡ recover write_response c (shutdown errors (direct c) w.running s).0
  unfolding receive handle_callback callback_map callback_at is_error stop_cmd command_type
  receive_lem w c s = refl

  -- The tool's command, once it is read from a connection, always runs to its end: the server and the
  -- watcher are closed, no stored object has a process, those with a socket stay, and the
  -- connection is answered with `OK` and no other is answered.
  pub handle-stop_cmd :
      (w : World) (n c : ℕ) (s : System Json)
      → get_elem? s.server.reading n ≡ some c
      → (t : System Json) × (handle errors w (receives n success stop_cmd) s ≡ done t)
        × (t.server.is_open ≡ false)
        × (t.watching ≡ false)
        × (t.monitors ≡ survivors s.monitors)
        × (t.scrapers ≡ survivors s.scrapers)
        × (t.replies ≡ (c, ok_response) ∷ s.replies)
  unfolding recover write_response shut_down handle stopped
  handle-stop_cmd w n c s h =
      let server = s.server in
      let read = record s { server = record server { reading = remove_at server.reading n } } in
      (
        stopped c read,
        rw (handle, h, receive_lem w c read, shutdown_lem w c read) refl,
        refl,
        refl,
        refl,
        refl,
        refl,
      )
