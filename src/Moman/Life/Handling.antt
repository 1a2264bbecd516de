-- ===== src/Moman/Life/Handling.antt =====
-- A round of the loop and the life of the stored objects.
use kekmonitors_cpp.Prelude.{ℕ, ◌≡◌, refl, false, get_elem?, List, arith}
use kekmonitors_cpp.Prelude.Outcome.{Outcome, done, throws, undefined, out_of_range}
use kekmonitors_cpp.Core.Bimap.{BimapApi}
use kekmonitors_cpp.Core.Codes.{MonitorOrScraper, ErrorCode}
use kekmonitors_cpp.Json.{JsonApi}
use kekmonitors_cpp.Msg.Cmd.{Cmd}
use kekmonitors_cpp.Server.{recover}
use kekmonitors_cpp.Moman.State.{
  Joint, joint_add, joint_status, joint_stop, Completion, Pending, posted, add_wait, stop_write,
  stop_read, verify_wait, verify_write, verify_read, Sending, SendingStage, Watch, System, direct,
  half,
}
use kekmonitors_cpp.Moman.Reply.{write_response, create_completion}
use kekmonitors_cpp.Moman.Stop.{on_stop_read}
use kekmonitors_cpp.Moman.Status.{on_get_status}
use kekmonitors_cpp.Moman.Loop.{
  World, Ending, Event, accepts, receives, ends, exits, notifies, sent, on_sent, receive, run_joint,
  resume, handle, MayEnd, MayHappen,
}
use kekmonitors_cpp.Moman.Sockets.{on_verify_timer}
use kekmonitors_cpp.Moman.Invariant.Base.{
  Inv, Ensures, IsUnverified, AllUnverified-remove_at, AllUnverified-get_elem?,
}
use kekmonitors_cpp.Moman.Invariant.Answers.{Option-rule}
use kekmonitors_cpp.Moman.Invariant.Dispatch.{keeps-receive}
use kekmonitors_cpp.Moman.Invariant.Watching.{keeps-on_inotify_update}
use kekmonitors_cpp.Moman.Life.{Same, Once, SocketLives, unchanged}
use kekmonitors_cpp.Moman.Configs.{next_stage}
use kekmonitors_cpp.Moman.Watcher.{WatcherWorld, InotifyEvent}
use kekmonitors_cpp.Moman.Defined.Rounds.{is_watched_event}
use kekmonitors_cpp.Moman.Life.Handlers.{
  Follows, Follows-Once, Once-on_process_exit, SocketLives-check_socket_and_update_list,
}
use kekmonitors_cpp.Moman.Life.Commands.{
  Once-call_back, Once-on_add, Once-on_add_timer, Once-on_stop, Once-on_stop_written, Once-shutdown,
}

module _ {Json : Type 0} (old : System Json) where
  -- What the maps and the invariant do not depend on.
  Follows-frame :
      (ws : List Watch) (xs : List (Sending Json × SendingStage)) (s : System Json)
      → Follows SocketLives old s
      → Follows SocketLives old (record s { watches = ws; sendings = xs })
  Follows-frame ws xs s h = record { monitors = h.monitors; scrapers = h.scrapers }

module _ {Json M : Type 0} ⦃J : JsonApi Json⦄ ⦃b : BimapApi M⦄ (errors : M)
    (old : System Json) where
  Ensures-recover :
      (c : ℕ) (o : Outcome (System Json))
      → Ensures (Follows Once old) o
      → Ensures (Follows Once old) (recover write_response c o)
  unfolding recover write_response
  Ensures-recover c (done s) h = h
  Ensures-recover c (throws out_of_range s) h = record {
    monitors = h.monitors;
    scrapers = h.scrapers;
  }
  Ensures-recover c (throws _ s) h = h
  Ensures-recover c undefined h = tt

  Once-receive :
      (w : World) (err : ErrorCode) (cmd : Cmd Json) (c : ℕ) (s : System Json)
      → Inv s × Follows Same old s
      → Ensures (Follows Once old) (receive errors w err cmd c s)
  unfolding create_completion
  Once-receive w err =
      keeps-receive (λ c s. Inv s × Follows Same old s) (λ c o. Ensures (Follows Once old) o) errors
        w (λ r c s h. Once-call_back errors old (direct c) r s h.1)
        (λ c s h. Once-shutdown errors old (direct c) w.running s h.0 h.1)
        (λ m cmd c s h. Once-on_add errors old m cmd (direct c) w.add s h.0 h.1)
        (λ m cmd c s h. Once-on_stop errors old m cmd (direct c) w.connects s h.1)
        (λ j cmd c s h.
          Follows-Once old _ (record { monitors = h.1.monitors; scrapers = h.1.scrapers }))
        (Ensures (Follows Once old)) err (λ c s _ h. Follows-Once old s h.1)
        (λ c s h. Follows-Once old s h.1) Ensures-recover

  Once-run_joint :
      (w : World) (m : MonitorOrScraper) (id : ℕ) (c : Completion Json) (j : Joint)
      (s : System Json)
      → c.joint ≡ j
      → Inv s
      → Follows Same old s
      → Ensures (Follows Once old) (run_joint errors w m id c s)
  unfolding run_joint on_get_status
  Once-run_joint w m id c joint_add s e i h =
      rw (e, run_joint) (Once-on_add errors old m c.cmd (half id) w.add s i h)
  Once-run_joint w m id c joint_status s e i h =
      rw (e, run_joint) (Once-call_back errors old (half id) _ s h)
  Once-run_joint w m id c joint_stop s e i h =
      rw (e, run_joint) (Once-on_stop errors old m c.cmd (half id) w.connects s h)

  Once-resume :
      (w : World) (p : Pending) (e : Ending Json) (s t : System Json)
      → MayEnd t p e.error
      → IsUnverified p
      → Inv s
      → Follows Same old s
      → Ensures (Follows Once old) (resume errors w p e s)
  unfolding resume on_stop_read on_verify_timer
  Once-resume w (posted m id) e s t may u i h =
      Option-rule (Ensures (Follows Once old)) (get_elem? s.completions id) _ _ tt
        (λ c _. Once-run_joint w m id c c.joint s refl i h)
  Once-resume w (add_wait n m k cb) e s t may u i h =
      Once-on_add_timer errors old e.error m k cb w.running s i h
  Once-resume w (stop_write m k cb ep command) e s t may u i h =
      Once-on_stop_written errors old e.error e.message m k cb s h
  Once-resume w (stop_read cb) e s t may u i h = Once-call_back errors old cb e.response s h
  Once-resume w (verify_wait n m path k f) e s t may u i h =
      rw (may, on_verify_timer) (Follows-Once old s h)
  Once-resume w (verify_write m path k f) e s t may u i h = absurd u
  Once-resume w (verify_read m path k f) e s t may u i h = absurd u

  Once-on_sent :
      (n : ℕ) (err : ErrorCode) (s : System Json)
      → Follows Same old s
      → Follows Once old (on_sent n err s)
  unfolding on_sent
  Once-on_sent n err s h =
      let same : (xs : List (Sending Json × SendingStage))
          → Follows Once old (record s { sendings = xs }) =
        λ xs. Follows-Once old _ (record { monitors = h.monitors; scrapers = h.scrapers }) in
      Option-rule (Follows Once old) (get_elem? s.sendings n) _ _ (Follows-Once old s h) (λ x _.
        Option-rule (Follows Once old) (next_stage x.1 err) _ _ (same _) (λ stage _. same _))

  pub Once-handle :
      (w : World) (e : Event Json) (s : System Json)
      → MayHappen s e
      → is_watched_event e ≡ false
      → Inv s
      → Follows Same old s
      → Ensures (Follows Once old) (handle errors w e s)
  unfolding handle
  Once-handle w (accepts err) s may own i h =
      Option-rule (Ensures (Follows Once old)) s.server.accepting _ _ (Follows-Once old s h)
        (λ c _. Follows-Once old _ (record { monitors = h.monitors; scrapers = h.scrapers }))
  Once-handle w (receives n err cmd) s may own i h =
      Option-rule (Ensures (Follows Once old)) (get_elem? s.server.reading n) _ _
        (Follows-Once old s h)
        (λ c _. Once-receive w err cmd c _ (
          record {
            monitors = i.monitors;
            scrapers = i.scrapers;
            unverified = i.unverified;
            uncancelled = i.uncancelled;
          },
          record { monitors = h.monitors; scrapers = h.scrapers },
        ))
  Once-handle w (ends n e) s may own i h =
      Option-rule (Ensures (Follows Once old)) (get_elem? s.pending n) _ _ (Follows-Once old s h)
        (λ p q.
          Once-resume w p e _ s (may p q) (AllUnverified-get_elem? s.pending n p i.unverified q)
            (record {
              monitors = i.monitors;
              scrapers = i.scrapers;
              unverified = AllUnverified-remove_at s.pending n i.unverified;
              uncancelled = i.uncancelled;
            })
            (record { monitors = h.monitors; scrapers = h.scrapers }))
  Once-handle w (exits ec m k) s may own i h = Once-on_process_exit old ec m k s h
  Once-handle w (notifies watcher events) s may own i h = absurd (ground (arith, own))
  Once-handle w (sent n err) s may own i h = Once-on_sent n err s h

  pub Watched-handle :
      (w : World) (watcher : WatcherWorld Json) (events : List InotifyEvent)
      → Ensures (Follows SocketLives old) (handle errors w (notifies watcher events) old)
  unfolding handle
  Watched-handle w watcher events =
      keeps-on_inotify_update (Follows SocketLives old) (Follows-frame old)
        (SocketLives-check_socket_and_update_list old) watcher events old
        (record { monitors = λ k. unchanged; scrapers = λ k. unchanged })
