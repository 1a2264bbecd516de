-- ===== src/Moman/Defined.antt =====
-- The handlers of src/bin/moman/callbacks.cpp by whether their behaviour is defined: what they read
-- through the pointers that they are given.
pub mod Resuming
pub mod Rounds
use kekmonitors_cpp.Prelude.{
  ℕ, zero, suc, ◌<◌, ◌≡◌, refl, subst, String, Bool, some, List, [], ◌∷◌, Map, length, get_elem?,
  find, arith, str_eq, Option-cases, Bool-cases, inl, inr,
}
use kekmonitors_cpp.Prelude.Outcome.{Outcome, done, throws, undefined, Try-cases}
use kekmonitors_cpp.Core.Bimap.{BimapApi}
use kekmonitors_cpp.Core.Codes.{MonitorOrScraper, monitor, scraper, ErrorCode, is_error}
use kekmonitors_cpp.Json.{JsonApi}
use kekmonitors_cpp.Msg.Cmd.{Cmd, then_convert}
use kekmonitors_cpp.Msg.Response.{Response}
use kekmonitors_cpp.Moman.State.{
  Process, StoredObject, Callback, direct, half, System, stored, set_stored,
}
use kekmonitors_cpp.Moman.Reply.{joint_response, complete, check_for_completion, call_back}
use kekmonitors_cpp.Moman.Add.{
  AddWorld, add_registered, add_named, on_add, add_cancelled, stored_refusal,
}
use kekmonitors_cpp.Moman.Stop.{stop_named, on_stop, on_stop_written}
use kekmonitors_cpp.Moman.Status.{shutdown}
use kekmonitors_cpp.Moman.Terminate.{terminate_processes_lem}
use kekmonitors_cpp.Moman.Processes.{remove_stored_socket}
use kekmonitors_cpp.Moman.Invariant.Answers.{Option-rule, Outcome-rule, if-rule, Registered-rule}

abbrev pub IsDefined : {S : Type 0} → Outcome S → Type 0
IsDefined (done s) = Unit
IsDefined (throws e s) = Unit
IsDefined undefined = ⊥

pub get_elem?-lt :
    {A : Type 0} (l : List A) (i : ℕ) → i < length l → (x : A) × (get_elem? l i ≡ some x)
get_elem?-lt [] i h = absurd (omega (arith, h))
get_elem?-lt (x ∷ l) zero h = (x, refl)
get_elem?-lt (x ∷ l) (suc i) h = get_elem?-lt l i (omega (arith, h))

module _ {Json : Type 0} where
  -- The completion of the callback is there.
  abbrev pub IsCallable : Callback → System Json → Type 0
  IsCallable (direct c) s = Unit {0}
  IsCallable (half id) s = id < length s.completions

  pub IsCallable-set_stored :
      (cb : Callback) (m : MonitorOrScraper) (map : Map StoredObject) (s : System Json)
      → IsCallable cb s
      → IsCallable cb (set_stored m map s)
  IsCallable-set_stored (direct c) m map s h = tt
  IsCallable-set_stored (half id) monitor map s h = h
  IsCallable-set_stored (half id) scraper map s h = h

module _ {Json M : Type 0} ⦃J : JsonApi Json⦄ ⦃b : BimapApi M⦄ (errors : M) where
  pub call_back-IsDefined :
      (cb : Callback) (r : Response Json) (s : System Json)
      → IsCallable cb s
      → IsDefined (call_back errors cb r s)
  unfolding call_back check_for_completion complete
  call_back-IsDefined (direct c) r s h = tt
  call_back-IsDefined (half id) r s h =
      let (k, e) = get_elem?-lt s.completions id h in
      elim (Bool-cases k.both_completed) [
        | inl second ↦ elim (Try-cases (joint_response errors k.joint k.first_response r)) [
          | inl (x, q) ↦ rw (e, check_for_completion) (rw second (rw (q, complete) tt))
          | inr (a, q) ↦ rw (e, check_for_completion) (rw second (rw (q, complete) tt))
        ]
        | inr first ↦ rw (e, check_for_completion) (rw first tt)
      ]

  add_registered-IsDefined :
      (m : MonitorOrScraper) (k python : String) (cb : Callback) (w : AddWorld) (s : System Json)
      → IsCallable cb s
      → IsDefined (add_registered errors m k python cb w s)
  unfolding add_registered
  add_registered-IsDefined m k python cb w s h =
      Registered-rule IsDefined (w.find_one m k) _ _ _ _ (λ what. call_back-IsDefined cb _ s h)
        (call_back-IsDefined cb _ s h) tt
        (λ path _. Option-rule IsDefined (w.spawn _) _ _ tt (λ p _. tt))

  add_named-IsDefined :
      (m : MonitorOrScraper) (k : String) (cb : Callback) (w : AddWorld) (s : System Json)
      → IsCallable cb s
      → IsDefined w.python_executable
      → IsDefined (add_named errors m k cb w s)
  unfolding add_named
  add_named-IsDefined m k cb w s h py =
      Option-rule IsDefined (stored_refusal m (find k (stored m s))) _ _
        (Outcome-rule IsDefined w.python_executable _ _ (λ e. tt) (λ q. subst IsDefined q py)
          (λ python _.
            if-rule IsDefined (str_eq python "") _ _ (call_back-IsDefined cb _ s h)
              (add_registered-IsDefined m k python cb w s h)))
        (λ refusal _. call_back-IsDefined cb refusal s h)

  pub on_add-IsDefined :
      (m : MonitorOrScraper) (cmd : Cmd Json) (cb : Callback) (w : AddWorld) (s : System Json)
      → IsCallable cb s
      → IsDefined w.python_executable
      → IsDefined (on_add errors m cmd cb w s)
  unfolding on_add
  on_add-IsDefined m cmd cb w s h py =
      if-rule IsDefined (J.is_null cmd.payload) _ _ (call_back-IsDefined cb _ s h) (
        if-rule IsDefined (J.contains cmd.payload "name") _ _
          (Option-rule IsDefined (then_convert (J.at cmd.payload "name") J.as_string) _ _ tt
            (λ k _. add_named-IsDefined m k cb w s h py))
          (call_back-IsDefined cb _ s h))

  pub add_cancelled-IsDefined :
      (m : MonitorOrScraper) (k : String) (cb : Callback) (s : System Json)
      → IsCallable cb s
      → IsDefined (add_cancelled errors m k cb s)
  unfolding add_cancelled
  add_cancelled-IsDefined m k cb s h =
      Option-rule IsDefined (find k (stored m s)) _ _ (call_back-IsDefined cb _ s h) (λ obj _.
        if-rule IsDefined obj.confirm_added _ _
          (call_back-IsDefined cb _ _ (IsCallable-set_stored cb m _ s h)) tt)

  stop_named-IsDefined :
      (m : MonitorOrScraper) (k : String) (cb : Callback) (connects : String → Bool)
      (s : System Json)
      → IsCallable cb s
      → IsDefined (stop_named errors m k cb connects s)
  unfolding stop_named
  stop_named-IsDefined m k cb connects s h =
      Option-rule IsDefined (find k (stored m s)) _ _ (call_back-IsDefined cb _ s h) (λ obj _.
        Option-rule IsDefined obj.endpoint _ _ (call_back-IsDefined cb _ s h) (λ ep _.
          if-rule IsDefined obj.is_being_stopped _ _ (call_back-IsDefined cb _ s h)
            (if-rule IsDefined (connects ep) _ _ tt tt)))

  pub on_stop-IsDefined :
      (m : MonitorOrScraper) (cmd : Cmd Json) (cb : Callback) (connects : String → Bool)
      (s : System Json)
      → IsCallable cb s
      → IsDefined (on_stop errors m cmd cb connects s)
  unfolding on_stop
  on_stop-IsDefined m cmd cb connects s h =
      if-rule IsDefined (J.is_null cmd.payload) _ _ (call_back-IsDefined cb _ s h) (
        if-rule IsDefined (J.contains cmd.payload "name") _ _
          (Option-rule IsDefined (then_convert (J.at cmd.payload "name") J.as_string) _ _ tt
            (λ k _. stop_named-IsDefined m k cb connects s h))
          (call_back-IsDefined cb _ s h))

  pub on_stop_written-IsDefined :
      (ec : ErrorCode) (message : String) (m : MonitorOrScraper) (k : String) (cb : Callback)
      (s : System Json)
      → IsCallable cb s
      → IsDefined (on_stop_written errors ec message m k cb s)
  unfolding on_stop_written
  on_stop_written-IsDefined ec message m k cb s h =
      if-rule IsDefined (is_error ec) _ _
        (call_back-IsDefined cb _ _
          (IsCallable-set_stored cb m (remove_stored_socket k (stored m s)) s h))
        tt

  pub shutdown-IsDefined :
      (c : ℕ) (running : Process → Bool) (s : System Json)
      → IsDefined (shutdown errors (direct c) running s).0
  unfolding shutdown
  shutdown-IsDefined c running s =
      rw (terminate_processes_lem running s.monitors, shutdown)
        (rw (terminate_processes_lem running s.scrapers) tt)
