-- ===== src/Moman/OneAnswer/Handlers.antt =====
-- The handlers, by what they do with their callback.
use kekmonitors_cpp.Prelude.{
  ℕ, ◌≡◌, String, Bool, true, false, not, ◌&&◌, ◌||◌, arith, none, some, find, assign, str_eq,
}
use kekmonitors_cpp.Core.Bimap.{BimapApi}
use kekmonitors_cpp.Core.Codes.{command_type, stop, MonitorOrScraper, ErrorCode, is_error}
use kekmonitors_cpp.Json.{JsonApi}
use kekmonitors_cpp.Msg.Cmd.{Cmd, then_convert}
use kekmonitors_cpp.Moman.State.{Callback, Process, add_wait, stop_write, stop_read, System, stored}
use kekmonitors_cpp.Moman.Add.{
  AddWorld, store_process, started, add_registered, add_named, on_add, add_cancelled, add_expired,
  on_add_timer, stored_refusal, is_cancelled,
}
use kekmonitors_cpp.Server.{shut_down}
use kekmonitors_cpp.Moman.Stop.{stop_named, on_stop, on_stop_written}
use kekmonitors_cpp.Moman.Status.{shutdown}
use kekmonitors_cpp.Moman.Terminate.{terminate_processes_lem}
use kekmonitors_cpp.Moman.Processes.{remove_stored_socket}
use kekmonitors_cpp.Moman.Invariant.Answers.{
  Option-rule, Outcome-rule, if-rule, if-cases, Registered-rule,
}
use kekmonitors_cpp.Moman.OneAnswer.Held.{
  Answered, Held, Held-drop, Held-start_stored, Held-set_stored,
}
use kekmonitors_cpp.Moman.OneAnswer.Answering.{Held-call_back}

-- Whether the handler of the timer of `onAdd` calls no callback: it goes by the stored object.
abbrev pub is_dropped : {Json : Type 0} → ErrorCode → MonitorOrScraper → String → System Json → Bool
is_dropped ec m k s =
    is_error ec
    && (not (is_cancelled ec)
        || elim (find k (stored m s)) [ none ↦ false | some obj ↦ not obj.confirm_added ])

module _ {L B : ℕ → ℕ} {Json M : Type 0} ⦃J : JsonApi Json⦄ ⦃b : BimapApi M⦄ (errors : M) where
  Held-started :
      (m : MonitorOrScraper) (k : String) (cb : Callback) (p : ℕ × ℕ) (s : System Json)
      → Held L B (some cb) s
      → Held L B none (started m k cb p s)
  unfolding started
  Held-started m k cb (pid, creation) s n =
      let process : Process = record { class_name = k; pid = pid; creation = creation } in
      Held-start_stored (add_wait s.next_timer m k cb) m
        (store_process k process s.next_timer (stored m s)) s n

  Held-add_registered :
      (m : MonitorOrScraper) (k python : String) (cb : Callback) (w : AddWorld) (s : System Json)
      → Held L B (some cb) s
      → Answered L B cb (add_registered errors m k python cb w s)
  unfolding add_registered
  Held-add_registered m k python cb w s n =
      Registered-rule (Answered L B cb) (w.find_one m k) _ _ _ _
        (λ what. Held-call_back errors cb _ s n) (Held-call_back errors cb _ s n) n
        (λ path _.
          Option-rule (Answered L B cb) (w.spawn _) _ _ n (λ p _. Held-started m k cb p s n))

  Held-add_named :
      (m : MonitorOrScraper) (k : String) (cb : Callback) (w : AddWorld) (s : System Json)
      → Held L B (some cb) s
      → Answered L B cb (add_named errors m k cb w s)
  unfolding add_named
  Held-add_named m k cb w s n =
      Option-rule (Answered L B cb) (stored_refusal m (find k (stored m s))) _ _
        (Outcome-rule (Answered L B cb) w.python_executable _ _ (λ e. n) (λ q. tt)
          (λ python _.
            if-rule (Answered L B cb) (str_eq python "") _ _ (Held-call_back errors cb _ s n)
              (Held-add_registered m k python cb w s n)))
        (λ refusal _. Held-call_back errors cb refusal s n)

  pub Held-on_add :
      (m : MonitorOrScraper) (cmd : Cmd Json) (cb : Callback) (w : AddWorld) (s : System Json)
      → Held L B (some cb) s
      → Answered L B cb (on_add errors m cmd cb w s)
  unfolding on_add
  Held-on_add m cmd cb w s n =
      if-rule (Answered L B cb) (J.is_null cmd.payload) _ _ (Held-call_back errors cb _ s n) (
        if-rule (Answered L B cb) (J.contains cmd.payload "name") _ _
          (Option-rule (Answered L B cb) (then_convert (J.at cmd.payload "name") J.as_string) _ _ n
            (λ k _. Held-add_named m k cb w s n))
          (Held-call_back errors cb _ s n))

  pub Held-on_add_timer :
      (ec : ErrorCode) (m : MonitorOrScraper) (k : String) (cb : Callback)
      (running : Process → Bool) (s : System Json)
      → (is_dropped ec m k s ≡ true → (c : ℕ) → L c ≡ 0)
      → Held L B (some cb) s
      → Answered L B cb (on_add_timer errors ec m k cb running s)
  unfolding on_add_timer add_cancelled add_expired
  Held-on_add_timer ec m k cb running s loss n =
      if-cases (Answered L B cb) (is_error ec) _ _
        (λ e.
          if-cases (Answered L B cb) (is_cancelled ec) _ _
            (λ a.
              Option-rule (Answered L B cb) (find k (stored m s)) _ _
                (Held-call_back errors cb _ s n)
                (λ obj q.
                  let map = assign k (record obj { is_being_added = false }) (stored m s) in
                  if-cases (Answered L B cb) obj.confirm_added _ _
                    (λ _. Held-call_back errors cb _ _ (Held-set_stored (some cb) m _ s n))
                    (λ f.
                      let lost : is_dropped ec m k s ≡ true = ground (arith, e, a, q, f) in
                      Held-set_stored none m map s (Held-drop (some cb) s (loss lost) n))))
            (λ a.
              let lost : is_dropped ec m k s ≡ true = ground (arith, e, a) in
              Held-drop (some cb) s (loss lost) n))
        (λ _.
          Option-rule (Answered L B cb) (find k (stored m s)) _ _ (Held-call_back errors cb _ s n)
            (λ obj _. Option-rule (Answered L B cb) obj.process _ _ tt (λ p _.
              if-rule (Answered L B cb) (running p) _ _
                (Held-call_back errors cb _ _ (Held-set_stored (some cb) m _ s n))
                (Held-call_back errors cb _ s n))))

  Held-stop_named :
      (m : MonitorOrScraper) (k : String) (cb : Callback) (connects : String → Bool)
      (s : System Json)
      → Held L B (some cb) s
      → Answered L B cb (stop_named errors m k cb connects s)
  unfolding stop_named
  Held-stop_named m k cb connects s n =
      Option-rule (Answered L B cb) (find k (stored m s)) _ _ (Held-call_back errors cb _ s n)
        (λ obj _.
          Option-rule (Answered L B cb) obj.endpoint _ _ (Held-call_back errors cb _ s n) (λ ep _.
            if-rule (Answered L B cb) obj.is_being_stopped _ _ (Held-call_back errors cb _ s n) (
              if-rule (Answered L B cb) (connects ep) _ _
                (Held-start_stored (stop_write m k cb ep (command_type stop)) m
                  (assign k (record obj { is_being_stopped = true }) (stored m s)) s n)
                (Held-set_stored (some cb) m _ s n))))

  pub Held-on_stop :
      (m : MonitorOrScraper) (cmd : Cmd Json) (cb : Callback) (connects : String → Bool)
      (s : System Json)
      → Held L B (some cb) s
      → Answered L B cb (on_stop errors m cmd cb connects s)
  unfolding on_stop
  Held-on_stop m cmd cb connects s n =
      if-rule (Answered L B cb) (J.is_null cmd.payload) _ _ (Held-call_back errors cb _ s n) (
        if-rule (Answered L B cb) (J.contains cmd.payload "name") _ _
          (Option-rule (Answered L B cb) (then_convert (J.at cmd.payload "name") J.as_string) _ _ n
            (λ k _. Held-stop_named m k cb connects s n))
          (Held-call_back errors cb _ s n))

  pub Held-on_stop_written :
      (ec : ErrorCode) (message : String) (m : MonitorOrScraper) (k : String) (cb : Callback)
      (s : System Json)
      → Held L B (some cb) s
      → Answered L B cb (on_stop_written errors ec message m k cb s)
  unfolding on_stop_written
  Held-on_stop_written ec message m k cb s n =
      let removed = Held-set_stored (some cb) m (remove_stored_socket k (stored m s)) s n in
      if-rule (Answered L B cb) (is_error ec) _ _ (Held-call_back errors cb _ _ removed)
        (Held-start_stored (stop_read cb) m (remove_stored_socket k (stored m s)) s n)

  pub Held-shutdown :
      (cb : Callback) (running : Process → Bool) (s : System Json)
      → Held L B (some cb) s
      → Answered L B cb (shutdown errors cb running s).0
  unfolding shutdown shut_down
  Held-shutdown cb running s n =
      rw (terminate_processes_lem running s.monitors, shutdown)
        (rw (terminate_processes_lem running s.scrapers) (
          Held-call_back errors cb _ _ (record {
            kept = n.kept;
            once = n.once;
            fresh = n.fresh;
            halved = n.halved;
            unposted = n.unposted;
            room = n.room;
          })))
