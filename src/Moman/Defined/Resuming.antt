-- ===== src/Moman/Defined/Resuming.antt =====
-- What resumes a pending operation, by whether its behaviour is defined.
use kekmonitors_cpp.Prelude.{
  ℕ, ◌≡◌, refl, String, Bool, true, false, not, ◌&&◌, none, some, find, is_some, remove_at, arith,
  Option-cases, inl, inr,
}
use kekmonitors_cpp.Prelude.Outcome.{undefined}
use kekmonitors_cpp.Core.Bimap.{BimapApi}
use kekmonitors_cpp.Core.Codes.{MonitorOrScraper, monitor, scraper, ErrorCode, is_error}
use kekmonitors_cpp.Json.{JsonApi}
use kekmonitors_cpp.Moman.State.{
  Process, Joint, joint_add, joint_status, joint_stop, Completion, Pending, posted, add_wait,
  stop_write, stop_read, verify_wait, verify_write, verify_read, Callback, direct, half, System,
  stored,
}
use kekmonitors_cpp.Moman.Add.{add_expired, on_add_timer, is_cancelled}
use kekmonitors_cpp.Moman.Stop.{on_stop_read}
use kekmonitors_cpp.Moman.Status.{on_get_status}
use kekmonitors_cpp.Moman.Loop.{World, Ending, run_joint, resume}
use kekmonitors_cpp.Moman.Expiry.{add_expired_undefined}
use kekmonitors_cpp.Moman.Defined.{
  IsDefined, IsCallable, IsCallable-set_stored, get_elem?-lt, call_back-IsDefined, on_add-IsDefined,
  add_cancelled-IsDefined, on_stop-IsDefined, on_stop_written-IsDefined,
}
use kekmonitors_cpp.Moman.Invariant.Answers.{Option-rule, if-rule, if-cases}
use kekmonitors_cpp.Moman.Invariant.Base.{IsUnverified}
use kekmonitors_cpp.Moman.OneAnswer.Count.{held}
use kekmonitors_cpp.Moman.OneAnswer.Held.{Held}
use kekmonitors_cpp.Moman.OneAnswer.Losses.{none_each, one_each}

module _ {Json : Type 0} where
  -- Whether the kind has an object for the class name that has no process.
  abbrev pub is_bare : MonitorOrScraper → String → System Json → Bool
  is_bare m k s = elim (find k (stored m s)) [ none ↦ false | some obj ↦ not (is_some obj.process) ]

  -- Whether a wait of `onAdd` ends with the expiry of its timer, for such an object.
  abbrev pub is_bare_expiry : Pending → ErrorCode → System Json → Bool
  is_bare_expiry (add_wait t m k cb) ec s = not (is_error ec) && is_bare m k s
  is_bare_expiry _ ec s = false

  IsCallable-Held :
      (cb : Callback) (s : System Json) → Held none_each one_each (some cb) s → IsCallable cb s
  IsCallable-Held (direct c) s n = tt
  IsCallable-Held (half id) s n = ground (arith, n.unposted id)

  pub is_bare_expiry-take :
      (n : ℕ) (p : Pending) (ec : ErrorCode) (s : System Json)
      → is_bare_expiry p ec (record s { pending = remove_at s.pending n }) ≡ is_bare_expiry p ec s
  is_bare_expiry-take n (add_wait t monitor k cb) ec s = refl
  is_bare_expiry-take n (add_wait t scraper k cb) ec s = refl
  is_bare_expiry-take n (posted m id) ec s = refl
  is_bare_expiry-take n (stop_write m k cb ep command) ec s = refl
  is_bare_expiry-take n (stop_read cb) ec s = refl
  is_bare_expiry-take n (verify_wait t m path k f) ec s = refl
  is_bare_expiry-take n (verify_write m path k f) ec s = refl
  is_bare_expiry-take n (verify_read m path k f) ec s = refl

module _ {Json M : Type 0} ⦃J : JsonApi Json⦄ ⦃b : BimapApi M⦄ (errors : M) where
  add_expired-IsDefined :
      (m : MonitorOrScraper) (k : String) (cb : Callback) (running : Process → Bool)
      (s : System Json)
      → IsCallable cb s
      → is_bare m k s ≡ false
      → IsDefined (add_expired errors m k cb running s)
  unfolding add_expired
  add_expired-IsDefined m k cb running s h bare =
      Option-rule IsDefined (find k (stored m s)) _ _ (call_back-IsDefined errors cb _ s h)
        (λ obj e. elim (Option-cases obj.process) [
          | inl q ↦ absurd (ground (arith, e, q, bare))
          | inr (p, q) ↦ rw q (
              if-rule IsDefined (running p) _ _
                (call_back-IsDefined errors cb _ _ (IsCallable-set_stored cb m _ s h))
                (call_back-IsDefined errors cb _ s h))
        ])

  on_add_timer-IsDefined :
      (t : ℕ) (ec : ErrorCode) (m : MonitorOrScraper) (k : String) (cb : Callback)
      (running : Process → Bool) (s : System Json)
      → IsCallable cb s
      → is_bare_expiry (add_wait t m k cb) ec s ≡ false
      → IsDefined (on_add_timer errors ec m k cb running s)
  unfolding on_add_timer
  on_add_timer-IsDefined t ec m k cb running s h bare =
      if-cases IsDefined (is_error ec) _ _
        (λ _.
          if-rule IsDefined (is_cancelled ec) _ _ (add_cancelled-IsDefined errors m k cb s h) tt)
        (λ e. add_expired-IsDefined m k cb running s h (ground (arith, e, bare)))

  run_joint-IsDefined :
      (w : World) (m : MonitorOrScraper) (id : ℕ) (k : Completion Json) (j : Joint)
      (s : System Json)
      → k.joint ≡ j
      → IsCallable (half id) s
      → IsDefined w.add.python_executable
      → IsDefined (run_joint errors w m id k s)
  unfolding run_joint on_get_status
  run_joint-IsDefined w m id k joint_add s e h py =
      rw (e, run_joint) (on_add-IsDefined errors m k.cmd (half id) w.add s h py)
  run_joint-IsDefined w m id k joint_status s e h py =
      rw (e, run_joint) (call_back-IsDefined errors (half id) _ s h)
  run_joint-IsDefined w m id k joint_stop s e h py =
      rw (e, run_joint) (on_stop-IsDefined errors m k.cmd (half id) w.connects s h)

  pub resume-IsDefined :
      (w : World) (p : Pending) (e : Ending Json) (s : System Json)
      → IsUnverified p
      → Held none_each one_each (held p) s
      → is_bare_expiry p e.error s ≡ false
      → IsDefined w.add.python_executable
      → IsDefined (resume errors w p e s)
  unfolding resume on_stop_read
  resume-IsDefined w (posted m id) e s u n bare py =
      let called = IsCallable-Held (half id) s n in
      let (k, q) = get_elem?-lt s.completions id called in
      rw (q, resume) (run_joint-IsDefined w m id k k.joint s refl called py)
  resume-IsDefined w (add_wait t m k cb) e s u n bare py =
      on_add_timer-IsDefined t e.error m k cb w.running s (IsCallable-Held cb s n) bare
  resume-IsDefined w (stop_write m k cb ep command) e s u n bare py =
      on_stop_written-IsDefined errors e.error e.message m k cb s (IsCallable-Held cb s n)
  resume-IsDefined w (stop_read cb) e s u n bare py =
      call_back-IsDefined errors cb e.response s (IsCallable-Held cb s n)
  resume-IsDefined w (verify_wait t m path k f) e s u n bare py = tt
  resume-IsDefined w (verify_write m path k f) e s u n bare py = absurd u
  resume-IsDefined w (verify_read m path k f) e s u n bare py = absurd u

  pub resume_bare :
      (w : World) (p : Pending) (e : Ending Json) (s : System Json)
      → is_bare_expiry p e.error s ≡ true
      → resume errors w p e s ≡ undefined
  unfolding resume on_add_timer
  resume_bare w (add_wait t m k cb) e s h =
      let ok : is_error e.error ≡ false = ground (arith, h) in
      rw (ok, on_add_timer)
        (elim (Option-cases (find k (stored m s))) [
          | inl q ↦ absurd (ground (arith, q, h))
          | inr (obj, q) ↦ elim (Option-cases obj.process) [
            | inl gone ↦ add_expired_undefined errors m k cb w.running s obj q gone
            | inr (p, there) ↦ absurd (ground (arith, q, there, h))
          ]
        ])
  resume_bare w (posted m id) e s h = absurd (ground (arith, h))
  resume_bare w (stop_write m k cb ep command) e s h = absurd (ground (arith, h))
  resume_bare w (stop_read cb) e s h = absurd (ground (arith, h))
  resume_bare w (verify_wait t m path k f) e s h = absurd (ground (arith, h))
  resume_bare w (verify_write m path k f) e s h = absurd (ground (arith, h))
  resume_bare w (verify_read m path k f) e s h = absurd (ground (arith, h))
