-- ===== src/Cli/Adding.antt =====
-- A client of src/bin/cli.cpp that has the manager add a monitor or a scraper.
use Prim.Native.String.{◌++◌}
use kekmonitors_cpp.Prelude.{
  ℕ, String, ◌≡◌, refl, true, false, none, some, List, ◌∷◌, find, assign, get_elem?, remove_at,
  str_eq, arith, ◌∙◌, ap, eq_iff, find-emplace, Bool-cases, inl, inr,
}
use kekmonitors_cpp.Prelude.Outcome.{Try, returns, done}
use kekmonitors_cpp.Core.Bimap.{BimapApi}
use kekmonitors_cpp.Core.Codes.{
  CommandType, command_type, mm_add_monitor, mm_add_scraper, MonitorOrScraper, monitor, scraper,
  success, is_error,
}
use kekmonitors_cpp.Core.Names.{init_maps, string_to_command}
use kekmonitors_cpp.Json.{JsonApi}
use kekmonitors_cpp.Msg.Cmd.{Cmd}
use kekmonitors_cpp.Msg.Response.{ok_response}
use kekmonitors_cpp.Server.{UnixServer, handle_callback, callback_at, recover}
use kekmonitors_cpp.Moman.State.{Process, new_stored_object, direct, System, stored}
use kekmonitors_cpp.Moman.Reply.{call_back, write_response}
use kekmonitors_cpp.Moman.Add.{
  registered, with_process, stored_refusal, store_process, started, add_registered, add_named,
  on_add, add_expired, on_add_timer,
}
use kekmonitors_cpp.Moman.Loop.{
  World, Ending, receives, ends, callback_map, receive, resume, handle,
}
use kekmonitors_cpp.Cli.{ℤ, sends, run}
use kekmonitors_cpp.Cli.Payload.{option_args, last_value, or_at}
use kekmonitors_cpp.Cli.Runs.{run-named}

-- The command that adds one of the kind.
abbrev pub add_command : MonitorOrScraper → CommandType
add_command monitor = command_type mm_add_monitor
add_command scraper = command_type mm_add_scraper

module _ {Json : Type 0} ⦃J : JsonApi Json⦄ where
  stored-server :
      (m : MonitorOrScraper) (server : UnixServer) (s : System Json)
      → stored m (record s { server = server }) ≡ stored m s
  stored-server monitor server s = refl
  stored-server scraper server s = refl

  replies-started :
      (m : MonitorOrScraper) (k : String) (p : ℕ × ℕ) (d : ℕ) (s : System Json)
      → (started m k (direct d) p s).replies ≡ s.replies
  unfolding started
  replies-started monitor k (pid, creation) d s = refl
  replies-started scraper k (pid, creation) d s = refl

module _ {Json M : Type 0} ⦃J : JsonApi Json⦄ ⦃b : BimapApi M⦄ (errors : M) where
  -- The command is dispatched to `onAdd`.
  receive-on_add :
      (m : MonitorOrScraper) (v : World) (c : Cmd Json) (d : ℕ) (s : System Json)
      → c.cmd ≡ add_command m
      → receive errors v success c d s
        ≡ recover write_response d (on_add errors m c (direct d) v.add s)
  unfolding receive handle_callback callback_map callback_at is_error command_type
  receive-on_add monitor v c d s e = rw e refl
  receive-on_add scraper v c d s e = rw e refl

  on_add-started :
      (m : MonitorOrScraper) (k python path : String) (p : ℕ × ℕ) (v : World) (c : Cmd Json) (d : ℕ)
      (s : System Json)
      → J.at c.payload "name" ≡ some (J.of_string k)
      → find k (stored m s) ≡ none
      → v.add.python_executable ≡ done python
      → str_eq python "" ≡ false
      → v.add.find_one m k ≡ registered (some path)
      → v.add.spawn (python ++ (" " ++ (path ++ " --no-config-watcher --no-output"))) ≡ some p
      → on_add errors m c (direct d) v.add s ≡ done (started m k (direct d) p s)
  unfolding on_add add_named add_registered stored_refusal
  on_add-started m k python path p v c d s at absent py there reg spawned =
      let has : J.contains c.payload "name" ≡ true = rw (J.contains-at c.payload "name", at) refl in
      let full : J.is_null c.payload ≡ false = elim (Bool-cases (J.is_null c.payload)) [
        | inl e ↦
            absurd (
              ground (arith, at, J.at-null "name", ap (λ j. J.at j "name") (J.eq-null c.payload e)))
        | inr e ↦ e
      ] in
      rw
        (
          on_add,
          full,
          has,
          at,
          J.as_string-of_string k,
          add_named,
          absent,
          py,
          there,
          add_registered,
          reg,
          spawned,
        )
        refl

  -- The wait of the addition is the newest operation, and its object is the one that was stored.
  expiry-started :
      (m : MonitorOrScraper) (k : String) (p : ℕ × ℕ) (v : World) (e : Ending Json) (d : ℕ)
      (s : System Json)
      → find k (stored m s) ≡ none
      → e.error ≡ success
      → v.running (record { class_name = k; pid = p.0; creation = p.1 }) ≡ true
      → (t : System Json) × (handle errors v (ends 0 e) (started m k (direct d) p s) ≡ done t)
        × (t.replies ≡ (d, ok_response) ∷ s.replies)
  unfolding handle resume on_add_timer add_expired started call_back is_error store_process
      write_response
  expiry-started monitor k (pid, creation) v e d s absent ended runs =
      let process : Process = record { class_name = k; pid = pid; creation = creation } in
      let new = with_process process s.next_timer (new_stored_object k) in
      let map = store_process k process s.next_timer s.monitors in
      let at : find k map ≡ some new =
        rw (store_process, absent)
          (ground (arith, absent, eq_iff k k, find-emplace k k new s.monitors)) in
      let taken = record (started monitor k (direct d) (pid, creation) s) { pending = s.pending } in
      let settled = assign k (record new { is_being_added = false }) map in
      (
        write_response d ok_response (record taken { monitors = settled }),
        rw ended (rw (add_expired, at, runs) refl),
        refl,
      )
  expiry-started scraper k (pid, creation) v e d s absent ended runs =
      let process : Process = record { class_name = k; pid = pid; creation = creation } in
      let new = with_process process s.next_timer (new_stored_object k) in
      let map = store_process k process s.next_timer s.scrapers in
      let at : find k map ≡ some new =
        rw (store_process, absent)
          (ground (arith, absent, eq_iff k k, find-emplace k k new s.scrapers)) in
      let taken = record (started scraper k (direct d) (pid, creation) s) { pending = s.pending } in
      let settled = assign k (record new { is_being_added = false }) map in
      (
        write_response d ok_response (record taken { scrapers = settled }),
        rw ended (rw (add_expired, at, runs) refl),
        refl,
      )

module _ {Json M : Type 0} ⦃J : JsonApi Json⦄ ⦃b : BimapApi M⦄ (errors : M) where
  -- A client is called with the name of the command that adds a monitor or a scraper, and with options
  -- of which the last "--name" gives a class name. It sends a command with which, where the manager
  -- has nothing stored for that class name, a Python is found, the class is registered and its
  -- process starts, the manager stores the process and waits; and if the timer expires next, while
  -- the process runs, then the client's connection is answered with `OK`, and no other is.
  pub client-added :
      (stoi : String → Try ℤ) (program name : String) (options : List (String × String))
      (m : MonitorOrScraper) (k python path : String) (p : ℕ × ℕ) (v w : World) (n d : ℕ)
      (e : Ending Json) (s : System Json)
      → str_eq name "--list-cmd" ≡ false
      → string_to_command (init_maps {M = M}).0 name ≡ returns (add_command m)
      → last_value options "name" ≡ some k
      → get_elem? s.server.reading n ≡ some d
      → find k (stored m s) ≡ none
      → v.add.python_executable ≡ done python
      → str_eq python "" ≡ false
      → v.add.find_one m k ≡ registered (some path)
      → v.add.spawn (python ++ (" " ++ (path ++ " --no-config-watcher --no-output"))) ≡ some p
      → e.error ≡ success
      → w.running (record { class_name = k; pid = p.0; creation = p.1 }) ≡ true
      → (c : Cmd Json) × (t : System Json) × (u : System Json) × (run
            (init_maps {M = M}).0
            stoi
            (program ∷ name ∷ option_args options)
          ≡ sends c)
        × (handle errors v (receives n success c) s ≡ done t)
        × (handle errors w (ends 0 e) t ≡ done u)
        × (t.replies ≡ s.replies)
        × (u.replies ≡ (d, ok_response) ∷ s.replies)
  unfolding handle recover
  client-added stoi program name options m k python path p v w n d e s plain looked last at absent
        py there reg spawned ended runs =
      let (c, sent, code, at_options) =
        run-named M stoi program name (add_command m) options plain looked in
      let named : J.at c.payload "name" ≡ some (J.of_string k) =
        at_options "name" ∙ ap (λ o. or_at o none) last in
      let server = s.server in
      let read = record s { server = record server { reading = remove_at server.reading n } } in
      let free : find k (stored m read) ≡ none = rw (stored-server m _ s) absent in
      let adds =
        on_add-started errors m k python path p v c d read named free py there reg spawned in
      let first : handle errors v (receives n success c) s ≡ done (started m k (direct d) p read) =
        rw (handle, at, receive-on_add errors m v c d read code, adds) refl in
      let (u, second, answered) = expiry-started errors m k p w e d read free ended runs in
      (
        c,
        started m k (direct d) p read,
        u,
        sent,
        first,
        second,
        replies-started m k p d read,
        answered,
      )
