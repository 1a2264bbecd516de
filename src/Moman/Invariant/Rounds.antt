-- ===== src/Moman/Invariant/Rounds.antt =====
-- The invariant after any number of rounds of the loop.
use kekmonitors_cpp.Prelude.{
  ℕ, ◌≡◌, refl, subst, List, [], ◌∷◌, get_elem?, String, Bool, ◌&&◌, not, str_eq,
}
use kekmonitors_cpp.Prelude.Outcome.{Outcome, done, throws, undefined, out_of_range}
use kekmonitors_cpp.Core.Bimap.{BimapApi}
use kekmonitors_cpp.Core.Codes.{MonitorOrScraper, ErrorCode}
use kekmonitors_cpp.Json.{JsonApi}
use kekmonitors_cpp.Msg.Cmd.{Cmd}
use kekmonitors_cpp.Server.{recover}
use kekmonitors_cpp.Moman.State.{
  Joint, joint_add, joint_status, joint_stop, Completion, Pending, posted, add_wait, stop_write,
  Sending, SendingStage, Watch, stop_read, verify_wait, verify_write, verify_read, System,
  empty_system, direct, half,
}
use kekmonitors_cpp.Moman.Reply.{write_response, create_completion}
use kekmonitors_cpp.Moman.Stop.{on_stop_read}
use kekmonitors_cpp.Moman.Status.{on_get_status}
use kekmonitors_cpp.Moman.Sockets.{in_create}
use kekmonitors_cpp.Moman.Start.{DirectoryEntry, StartWorld, find_sockets, init}
use kekmonitors_cpp.Moman.Loop.{
  World, Ending, Event, accepts, receives, ends, exits, notifies, sent, receive, run_joint, resume,
  handle, MayEnd, MayHappen, Step, step, Reach, here, next,
}
use kekmonitors_cpp.Moman.Invariant.Base.{
  Inv, Ensures, IsUnverified, AllUnverified-remove_at, AllUnverified-get_elem?,
}
use kekmonitors_cpp.Moman.Invariant.Answers.{
  Option-rule, if-rule, Inv-write_response, Inv-call_back,
}
use kekmonitors_cpp.Moman.Invariant.Dispatch.{keeps-receive}
use kekmonitors_cpp.Moman.Invariant.Watching.{keeps-on_inotify_update, keeps-on_sent}
use kekmonitors_cpp.Moman.Invariant.Adding.{Inv-on_add, Inv-on_add_timer}
use kekmonitors_cpp.Moman.Invariant.Stopping.{Inv-on_stop, Inv-on_stop_written}
use kekmonitors_cpp.Moman.Invariant.Handlers.{
  Inv-on_process_exit, Inv-check_socket_and_update_list, Inv-on_verify_timer, Inv-shutdown,
}

module _ {Json M : Type 0} ⦃J : JsonApi Json⦄ ⦃b : BimapApi M⦄ (errors : M) where
  -- A joint command starts two posted calls.
  Inv-create_completion :
      (joint : Joint) (cmd : Cmd Json) (c : ℕ) (s : System Json)
      → Inv s
      → Inv (create_completion joint cmd c s)
  unfolding create_completion
  Inv-create_completion joint cmd c s h = record {
    monitors = h.monitors;
    scrapers = h.scrapers;
    unverified = (tt, (tt, h.unverified));
    uncancelled = h.uncancelled;
  }

module _ {Json M : Type 0} ⦃J : JsonApi Json⦄ ⦃b : BimapApi M⦄ (errors : M) where
  Ensures-recover :
      (c : ℕ) (o : Outcome (System Json)) → Ensures Inv o → Ensures Inv (recover write_response c o)
  unfolding recover
  Ensures-recover c (done s) h = h
  Ensures-recover c (throws out_of_range s) h = Inv-write_response c _ s h
  Ensures-recover c (throws _ s) h = h
  Ensures-recover c undefined h = tt

  Inv-receive :
      (w : World) (err : ErrorCode) (cmd : Cmd Json) (c : ℕ) (s : System Json)
      → Inv s
      → Ensures Inv (receive errors w err cmd c s)
  Inv-receive w err =
      keeps-receive (λ c s. Inv s) (λ c o. Ensures Inv o) errors w
        (λ r c s h. Inv-call_back errors (direct c) r s h)
        (λ c s h. Inv-shutdown errors (direct c) w.running s h)
        (λ m cmd c s h. Inv-on_add errors m cmd (direct c) w.add s h)
        (λ m cmd c s h. Inv-on_stop errors m cmd (direct c) w.connects s h)
        (λ j cmd c s h. Inv-create_completion errors j cmd c s h) (Ensures Inv) err (λ c s _ h. h)
        (λ c s h. h) Ensures-recover

  Inv-run_joint :
      (w : World) (m : MonitorOrScraper) (id : ℕ) (c : Completion Json) (j : Joint)
      (s : System Json)
      → c.joint ≡ j
      → Inv s
      → Ensures Inv (run_joint errors w m id c s)
  unfolding run_joint on_get_status
  Inv-run_joint w m id c joint_add s e h =
      rw (e, run_joint) (Inv-on_add errors m c.cmd (half id) w.add s h)
  Inv-run_joint w m id c joint_status s e h =
      rw (e, run_joint) (Inv-call_back errors (half id) _ s h)
  Inv-run_joint w m id c joint_stop s e h =
      rw (e, run_joint) (Inv-on_stop errors m c.cmd (half id) w.connects s h)

  Inv-resume :
      (w : World) (p : Pending) (e : Ending Json) (s t : System Json)
      → MayEnd t p e.error
      → IsUnverified p
      → Inv s
      → Ensures Inv (resume errors w p e s)
  unfolding resume on_stop_read
  Inv-resume w (posted m id) e s t may u h =
      Option-rule (Ensures Inv) (get_elem? s.completions id) _ _ tt
        (λ c _. Inv-run_joint w m id c c.joint s refl h)
  Inv-resume w (add_wait n m k cb) e s t may u h =
      Inv-on_add_timer errors e.error m k cb w.running s h
  Inv-resume w (stop_write m k cb ep command) e s t may u h =
      Inv-on_stop_written errors e.error e.message m k cb s h
  Inv-resume w (stop_read cb) e s t may u h = Inv-call_back errors cb e.response s h
  Inv-resume w (verify_wait n m path k k2) e s t may u h =
      Inv-on_verify_timer e.error m path k k2 w.connects s may h
  Inv-resume w (verify_write m path k k2) e s t may u h = absurd u
  Inv-resume w (verify_read m path k k2) e s t may u h = absurd u

  Inv-frame :
      (ws : List Watch) (xs : List (Sending Json × SendingStage)) (s : System Json)
      → Inv s
      → Inv (record s { watches = ws; sendings = xs })
  Inv-frame ws xs s h = record {
    monitors = h.monitors;
    scrapers = h.scrapers;
    unverified = h.unverified;
    uncancelled = h.uncancelled;
  }

  Inv-handle :
      (w : World) (e : Event Json) (s : System Json)
      → MayHappen s e
      → Inv s
      → Ensures Inv (handle errors w e s)
  unfolding handle
  Inv-handle w (accepts err) s may h = Option-rule (Ensures Inv) s.server.accepting _ _ h (λ c _.
      record {
        monitors = h.monitors;
        scrapers = h.scrapers;
        unverified = h.unverified;
        uncancelled = h.uncancelled;
      })
  Inv-handle w (receives n err cmd) s may h =
      Option-rule (Ensures Inv) (get_elem? s.server.reading n) _ _ h (λ c _.
        Inv-receive w err cmd c _ (record {
          monitors = h.monitors;
          scrapers = h.scrapers;
          unverified = h.unverified;
          uncancelled = h.uncancelled;
        }))
  Inv-handle w (ends n e) s may h = Option-rule (Ensures Inv) (get_elem? s.pending n) _ _ h (λ p q.
      Inv-resume w p e _ s (may p q) (AllUnverified-get_elem? s.pending n p h.unverified q)
        (record {
          monitors = h.monitors;
          scrapers = h.scrapers;
          unverified = AllUnverified-remove_at s.pending n h.unverified;
          uncancelled = h.uncancelled;
        }))
  Inv-handle w (exits ec m k) s may h = Inv-on_process_exit ec m k s h
  Inv-handle w (notifies watcher events) s may h =
      keeps-on_inotify_update Inv Inv-frame Inv-check_socket_and_update_list watcher events s h
  Inv-handle w (sent n err) s may h =
      keeps-on_sent Inv Inv-frame Inv-check_socket_and_update_list n err s h

  Inv-Step : {s t : System Json} → Step errors s t → Inv s → Inv t
  Inv-Step {s} {t} (step w e may q) h = subst (Ensures Inv) q (Inv-handle w e s may h)

  pub Reach-Inv : {s t : System Json} → Reach errors s t → Inv s → Inv t
  Reach-Inv here h = h
  Reach-Inv (next r st) h = Inv-Step st (Reach-Inv r h)

  Inv-find_sockets :
      (files : List DirectoryEntry) (connects : String → Bool) (s : System Json)
      → Inv s
      → Inv (find_sockets files connects s)
  unfolding find_sockets
  Inv-find_sockets [] connects s h = h
  Inv-find_sockets (file ∷ files) connects s h = Inv-find_sockets files connects _ (
      if-rule Inv (file.is_socket && not (str_eq file.filename "MonitorManager")) _ _
        (Inv-check_socket_and_update_list file.path file.filename in_create connects s h) h)

  Inv-init : (w : StartWorld) → Inv {Json = Json} (init w)
  unfolding init empty_system
  Inv-init w =
      let start : Inv {Json = Json} empty_system = record {
        monitors = record { entries = tt; distinct = tt };
        scrapers = record { entries = tt; distinct = tt };
        unverified = tt;
        uncancelled = refl;
      } in
      let h = Inv-find_sockets w.entries w.connects empty_system start in
      record {
        monitors = h.monitors;
        scrapers = h.scrapers;
        unverified = h.unverified;
        uncancelled = h.uncancelled;
      }

  -- In every state that the event loop reaches from the start, whatever sockets the constructor found,
  -- whatever clients, processes, sockets, configuration files and timers do and in any order that
  -- asio allows: each stored monitor or scraper has a process or a socket, is stored under its class
  -- name, has the timer of an `onAdd`, and has a class name that no other of its kind is stored under;
  -- no addition was confirmed by a socket, no timer was cancelled by hand, and no operation is pending
  -- that follows a connection made by `verifySocketIsCommunicating`.
  pub Reach-init-Inv : {t : System Json} (w : StartWorld) → Reach errors (init w) t → Inv t
  Reach-init-Inv w r = Reach-Inv r (Inv-init w)
