-- ===== src/Moman/OneAnswer/Rounds.antt =====
-- The invariant on answers after any number of rounds of the loop.
use kekmonitors_cpp.Prelude.{true, sym, ℕ, ◌+◌, ◌≤◌, ◌≡◌, refl, subst, none, some, get_elem?, arith}
use kekmonitors_cpp.Prelude.Outcome.{Outcome, done, throws, undefined, out_of_range}
use kekmonitors_cpp.Core.Bimap.{BimapApi}
use kekmonitors_cpp.Core.Codes.{MonitorOrScraper, ErrorCode, is_error}
use kekmonitors_cpp.Json.{JsonApi}
use kekmonitors_cpp.Msg.Cmd.{Cmd}
use kekmonitors_cpp.Server.{recover}
use kekmonitors_cpp.Moman.State.{
  Joint, joint_add, joint_status, joint_stop, Completion, Pending, posted, add_wait, stop_write,
  stop_read, verify_wait, verify_write, verify_read, System, empty_system, Callback, direct, half,
}
use kekmonitors_cpp.Moman.Reply.{write_response}
use kekmonitors_cpp.Moman.Stop.{on_stop_read}
use kekmonitors_cpp.Moman.Status.{on_get_status}
use kekmonitors_cpp.Moman.Start.{StartWorld, find_sockets, init}
use kekmonitors_cpp.Moman.Loop.{
  World, Ending, Event, accepts, receives, ends, exits, notifies, sent, receive, run_joint, resume,
  handle, Step, step, Reach, here, next,
}
use kekmonitors_cpp.Moman.Invariant.Answers.{Option-rule}
use kekmonitors_cpp.Moman.Invariant.Dispatch.{keeps-receive}
use kekmonitors_cpp.Moman.Invariant.Watching.{keeps-on_inotify_update, keeps-on_sent}
use kekmonitors_cpp.Moman.OneAnswer.Count.{held, answers, occurrences, waits}
use kekmonitors_cpp.Moman.OneAnswer.Held.{Answered, Held, Held-drop}
use kekmonitors_cpp.Moman.OneAnswer.Sockets.{
  Held-check_socket_and_update_list, Held-on_process_exit, Held-on_verify_timer, Held-find_sockets,
  Held-on_verify_written, Held-on_verify_read,
}
use kekmonitors_cpp.Moman.OneAnswer.Answering.{
  Held-call_back, Held-write_direct, Held-create_completion,
}
use kekmonitors_cpp.Moman.OneAnswer.Handlers.{
  Held-on_add, Held-on_add_timer, Held-on_stop, Held-on_stop_written, Held-shutdown,
}
use kekmonitors_cpp.Moman.OneAnswer.Losses.{
  one_each, none_each, Leaves, Leaves-Ensures, is_dropped_end, is_dropped_end-take, gives_up,
}
use kekmonitors_cpp.Moman.OneAnswer.Serving.{
  Held-on_connect, Held-read, Held-take, Held-empty, Held-start_accepting,
}

module _ (L B : ℕ → ℕ) {Json : Type 0} ⦃J : JsonApi Json⦄ where
  Leaves-Answered :
      (cb : Callback) (o : Outcome (System Json)) → Answered L B cb o → Leaves (Held L B none) o
  Leaves-Answered cb (done s) h = h
  Leaves-Answered cb (throws e s) h = tt
  Leaves-Answered cb undefined h = tt

  -- The response to a callback's `std::out_of_range` is the connection's one answer.
  Leaves-recover :
      (c : ℕ) (o : Outcome (System Json))
      → Answered L B (direct c) o
      → Leaves (Held L B none) (recover write_response c o)
  unfolding recover
  Leaves-recover c (done s) h = h
  Leaves-recover c (throws out_of_range s) h = Held-write_direct c _ s h
  Leaves-recover c (throws _ s) h = tt
  Leaves-recover c undefined h = tt

module _ {L B : ℕ → ℕ} {Json M : Type 0} ⦃J : JsonApi Json⦄ ⦃b : BimapApi M⦄ (errors : M) where
  Held-receive :
      (w : World) (err : ErrorCode)
      → (is_error err ≡ true → (d : ℕ) → L d ≡ 0)
      → (cmd : Cmd Json) (c : ℕ) (s : System Json) → Held L B (some (direct c)) s
      → Leaves (Held L B none) (receive errors w err cmd c s)
  Held-receive w err loss =
      keeps-receive (λ c s. Held L B (some (direct c)) s) (λ c o. Answered L B (direct c) o) errors
        w (λ r c s h. Held-call_back errors (direct c) r s h)
        (λ c s h. Held-shutdown errors (direct c) w.running s h)
        (λ m cmd c s h. Held-on_add errors m cmd (direct c) w.add s h)
        (λ m cmd c s h. Held-on_stop errors m cmd (direct c) w.connects s h)
        (λ j cmd c s h. Held-create_completion j cmd c s h) (Leaves (Held L B none)) err
        (λ c s e h. Held-drop (some (direct c)) s (loss e) h) (λ c s h. h) (Leaves-recover L B)

  Held-run_joint :
      (w : World) (m : MonitorOrScraper) (id : ℕ) (k : Completion Json) (j : Joint)
      (s : System Json)
      → k.joint ≡ j
      → Held L B (some (half id)) s
      → Answered L B (half id) (run_joint errors w m id k s)
  unfolding run_joint on_get_status
  Held-run_joint w m id k joint_add s e n =
      rw (e, run_joint) (Held-on_add errors m k.cmd (half id) w.add s n)
  Held-run_joint w m id k joint_status s e n =
      rw (e, run_joint) (Held-call_back errors (half id) _ s n)
  Held-run_joint w m id k joint_stop s e n =
      rw (e, run_joint) (Held-on_stop errors m k.cmd (half id) w.connects s n)

  Held-resume :
      (w : World) (p : Pending) (e : Ending Json) (s : System Json)
      → (is_dropped_end p e.error s ≡ true → (c : ℕ) → L c ≡ 0)
      → Held L B (held p) s
      → Leaves (Held L B none) (resume errors w p e s)
  unfolding resume on_stop_read
  Held-resume w (posted m id) e s loss n =
      Option-rule (Leaves (Held L B none)) (get_elem? s.completions id) _ _ tt
        (λ k _. Leaves-Answered L B (half id) _ (Held-run_joint w m id k k.joint s refl n))
  Held-resume w (add_wait t m k cb) e s loss n =
      Leaves-Answered L B cb _ (Held-on_add_timer errors e.error m k cb w.running s loss n)
  Held-resume w (stop_write m k cb ep command) e s loss n =
      Leaves-Answered L B cb _ (Held-on_stop_written errors e.error e.message m k cb s n)
  Held-resume w (stop_read cb) e s loss n =
      Leaves-Answered L B cb _ (Held-call_back errors cb e.response s n)
  Held-resume w (verify_wait t m path k then_do) e s loss n =
      Held-on_verify_timer e.error m path k then_do w.connects s n
  Held-resume w (verify_write m path k then_do) e s loss n =
      Held-on_verify_written e.error m path k then_do s n
  Held-resume w (verify_read m path k then_do) e s loss n =
      Leaves-Ensures (Held L B none) _ (Held-on_verify_read e.error e.response m path k then_do s n)

  pub Held-handle :
      (w : World) (e : Event Json) (s : System Json)
      → (gives_up e s ≡ true → (c : ℕ) → L c ≡ 0)
      → Held L B none s
      → Leaves (Held L B none) (handle errors w e s)
  unfolding handle
  Held-handle w (accepts err) s loss n =
      Option-rule (Leaves (Held L B none)) s.server.accepting _ _ n
        (λ c e. Held-on_connect err c s e loss n)
  Held-handle w (receives i err cmd) s loss n =
      Option-rule (Leaves (Held L B none)) (get_elem? s.server.reading i) _ _ n
        (λ c e. Held-receive w err loss cmd c _ (Held-read i c s e n))
  Held-handle w (ends i e) s loss n =
      Option-rule (Leaves (Held L B none)) (get_elem? s.pending i) _ _ n (λ p q.
        let lost = λ (h : is_dropped_end p e.error s ≡ true). loss (ground (arith, q, h)) in
        Held-resume w p e _ (λ h. lost (rw (sym (is_dropped_end-take i p e.error s)) h))
          (Held-take i p s q n))
  Held-handle w (exits ec m k) s loss n = Held-on_process_exit ec m k s n
  Held-handle w (notifies watcher events) s loss n = Leaves-Ensures (Held L B none) _ (
      keeps-on_inotify_update (Held L B none) (λ ws xs t k. k) Held-check_socket_and_update_list
        watcher events s n)
  Held-handle w (sent i err) s loss n =
      keeps-on_sent (Held L B none) (λ ws xs t k. k) Held-check_socket_and_update_list i err s n

  -- Where none must be answered, any round will do.
  Held-Step :
      {s t : System Json}
      → ((c : ℕ) → L c ≡ 0)
      → Step errors s t
      → Held L B none s
      → Held L B none t
  Held-Step {s} {t} loss (step w e may q) n =
      subst (Leaves (Held L B none)) q (Held-handle w e s (λ _. loss) n)

  pub Reach-Held :
      {s t : System Json}
      → ((c : ℕ) → L c ≡ 0)
      → Reach errors s t
      → Held L B none s
      → Held L B none t
  Reach-Held loss here n = n
  Reach-Held loss (next r st) n = Held-Step loss st (Reach-Held loss r n)

module _ {Json M : Type 0} ⦃J : JsonApi Json⦄ ⦃b : BimapApi M⦄ (errors : M) where
  Held-init : (w : StartWorld) → Held {Json = Json} none_each one_each none (init w)
  unfolding init
  Held-init w =
      Held-start_accepting (find_sockets w.entries w.connects empty_system)
        (Held-find_sockets w.entries w.connects empty_system Held-empty)

  pub Reach-init-Held :
      {t : System Json} (w : StartWorld) → Reach errors (init w) t → Held none_each one_each none t
  Reach-init-Held w r = Reach-Held errors (λ c. refl) r (Held-init w)

  -- In every state that the loop reaches from the one that the constructor leaves, whatever happens
  -- in whatever order, no connection was answered more than once, and a connection that is still
  -- waited for or read was not answered.
  pub answers_once :
      {t : System Json} (w : StartWorld)
      → Reach errors (init w) t
      → (c : ℕ)
      → answers c t.replies + occurrences c t.server.reading + waits c t.server.accepting ≤ 1
  answers_once w r c = let n = Reach-init-Held w r in omega (arith, n.once c)
