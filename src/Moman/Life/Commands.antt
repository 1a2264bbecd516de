-- ===== src/Moman/Life/Commands.antt =====
-- The commands of clients and what they wait for, and the life of the stored objects.
use kekmonitors_cpp.Prelude.{
  String, ◌≡◌, Bool, true, none, find, is_some, arith, str_eq, Option-cases, inl, inr, subst, sym,
}
use kekmonitors_cpp.Core.Bimap.{BimapApi}
use kekmonitors_cpp.Core.Codes.{MonitorOrScraper, ErrorCode, is_error}
use kekmonitors_cpp.Json.{JsonApi}
use kekmonitors_cpp.Msg.Cmd.{Cmd, then_convert}
use kekmonitors_cpp.Msg.Response.{Response}
use kekmonitors_cpp.Moman.Reply.{call_back}
use kekmonitors_cpp.Moman.State.{Process, Callback, System, stored}
use kekmonitors_cpp.Moman.Add.{
  AddWorld, add_registered, add_named, on_add, add_cancelled, add_expired, on_add_timer,
  add_refusal, stored_refusal, is_cancelled,
}
use kekmonitors_cpp.Moman.Stop.{stop_connect, stop_named, on_stop, on_stop_written}
use kekmonitors_cpp.Moman.Status.{shutdown}
use kekmonitors_cpp.Moman.Terminate.{survivors, terminate_processes_lem}
use kekmonitors_cpp.Moman.Invariant.Base.{Inv, Ensures, IsStored-find}
use kekmonitors_cpp.Moman.Invariant.Answers.{
  Option-rule, Outcome-rule, if-rule, if-cases, Registered-rule,
}
use kekmonitors_cpp.Moman.Life.{Same, Once, settled, stopping, AllLive-survivors}
use kekmonitors_cpp.Moman.Life.Handlers.{
  Follows, Follows-Once, Once-assign, Once-remove_stored_socket, Follows-call_back, Once-started,
}

module _ {Json : Type 0} ⦃J : JsonApi Json⦄ where
  -- An object that is stored is always refused: it has a process or a socket.
  stored-refused :
      (m : MonitorOrScraper) (k : String) (s : System Json)
      → Inv s
      → stored_refusal {Json = Json} m (find k (stored m s)) ≡ none
      → find k (stored m s) ≡ none
  unfolding stored_refusal add_refusal
  stored-refused m k s h e = elim (Option-cases (find k (stored m s))) [
    | inl q ↦ q
    | inr (obj, q) ↦
        let there = (IsStored-find m k obj s h q).present in absurd (ground (arith, e, q, there))
  ]

module _ {Json M : Type 0} ⦃J : JsonApi Json⦄ ⦃b : BimapApi M⦄ (errors : M)
    (old : System Json) where
  -- An answer before any change.
  pub Once-call_back :
      (cb : Callback) (r : Response Json) (s : System Json)
      → Follows Same old s
      → Ensures (Follows Once old) (call_back errors cb r s)
  Once-call_back cb r s h = Follows-call_back errors old Once cb r s (Follows-Once old s h)

  Once-add_registered :
      (m : MonitorOrScraper) (k python : String) (cb : Callback) (w : AddWorld) (s : System Json)
      → find k (stored m s) ≡ none
      → Follows Same old s
      → Ensures (Follows Once old) (add_registered errors m k python cb w s)
  unfolding add_registered
  Once-add_registered m k python cb w s e h =
      Registered-rule (Ensures (Follows Once old)) (w.find_one m k) _ _ _ _
        (λ what. Once-call_back cb _ s h) (Once-call_back cb _ s h) (Follows-Once old s h)
        (λ path _.
          Option-rule (Ensures (Follows Once old)) (w.spawn _) _ _ (Follows-Once old s h)
            (λ p _. Once-started errors old m k cb p s e h))

  Once-add_named :
      (m : MonitorOrScraper) (k : String) (cb : Callback) (w : AddWorld) (s : System Json)
      → Inv s
      → Follows Same old s
      → Ensures (Follows Once old) (add_named errors m k cb w s)
  unfolding add_named
  Once-add_named m k cb w s i h =
      elim (Option-cases (stored_refusal {Json = Json} m (find k (stored m s)))) [
        | inl e ↦
            let absent = stored-refused m k s i e in
            rw (e, add_named)
              (Outcome-rule (Ensures (Follows Once old)) w.python_executable _ _
                (λ e. Follows-Once old s h) (λ q. tt)
                (λ python _.
                  if-rule (Ensures (Follows Once old)) (str_eq python "") _ _
                    (Once-call_back cb _ s h) (Once-add_registered m k python cb w s absent h)))
        | inr (refusal, e) ↦ rw (e, add_named) (Once-call_back cb refusal s h)
      ]

  pub Once-on_add :
      (m : MonitorOrScraper) (cmd : Cmd Json) (cb : Callback) (w : AddWorld) (s : System Json)
      → Inv s
      → Follows Same old s
      → Ensures (Follows Once old) (on_add errors m cmd cb w s)
  unfolding on_add
  Once-on_add m cmd cb w s i h =
      if-rule (Ensures (Follows Once old)) (J.is_null cmd.payload) _ _ (Once-call_back cb _ s h) (
        if-rule (Ensures (Follows Once old)) (J.contains cmd.payload "name") _ _
          (Option-rule (Ensures (Follows Once old))
            (then_convert (J.at cmd.payload "name") J.as_string) _ _ (Follows-Once old s h)
            (λ k _. Once-add_named m k cb w s i h))
          (Once-call_back cb _ s h))

  pub Once-on_add_timer :
      (ec : ErrorCode) (m : MonitorOrScraper) (k : String) (cb : Callback)
      (running : Process → Bool) (s : System Json)
      → Inv s
      → Follows Same old s
      → Ensures (Follows Once old) (on_add_timer errors ec m k cb running s)
  unfolding on_add_timer add_cancelled add_expired
  Once-on_add_timer ec m k cb running s i h =
      if-rule (Ensures (Follows Once old)) (is_error ec) _ _
        (if-rule (Ensures (Follows Once old)) (is_cancelled ec) _ _
          (Option-rule (Ensures (Follows Once old)) (find k (stored m s)) _ _
            (Once-call_back cb _ s h)
            (λ obj e.
              let unconfirmed = (IsStored-find m k obj s i e).unconfirmed in
              if-cases (Ensures (Follows Once old)) obj.confirm_added _ _
                (λ c. absurd (ground (arith, c, unconfirmed)))
                (λ c. Once-assign old m k obj _ s h e (settled obj))))
          (Follows-Once old s h))
        (Option-rule (Ensures (Follows Once old)) (find k (stored m s)) _ _
          (Once-call_back cb _ s h)
          (λ obj e. Option-rule (Ensures (Follows Once old)) obj.process _ _ tt (λ p _.
            if-rule (Ensures (Follows Once old)) (running p) _ _
              (Follows-call_back errors old Once cb _ _
                (Once-assign old m k obj _ s h e (settled obj)))
              (Once-call_back cb _ s h))))

  Once-stop_named :
      (m : MonitorOrScraper) (k : String) (cb : Callback) (connects : String → Bool)
      (s : System Json)
      → Follows Same old s
      → Ensures (Follows Once old) (stop_named errors m k cb connects s)
  unfolding stop_named stop_connect
  Once-stop_named m k cb connects s h =
      Option-rule (Ensures (Follows Once old)) (find k (stored m s)) _ _ (Once-call_back cb _ s h)
        (λ obj e.
          Option-rule (Ensures (Follows Once old)) obj.endpoint _ _ (Once-call_back cb _ s h)
            (λ ep q.
              let linked : is_some obj.endpoint ≡ true = ground (arith, q) in
              let marked = Once-assign old m k obj _ s h e (stopping obj linked) in
              if-rule (Ensures (Follows Once old)) obj.is_being_stopped _ _
                (Once-call_back cb _ s h)
                (if-rule (Ensures (Follows Once old)) (connects ep) _ _
                  (record { monitors = marked.monitors; scrapers = marked.scrapers }) marked)))

  pub Once-on_stop :
      (m : MonitorOrScraper) (cmd : Cmd Json) (cb : Callback) (connects : String → Bool)
      (s : System Json)
      → Follows Same old s
      → Ensures (Follows Once old) (on_stop errors m cmd cb connects s)
  unfolding on_stop
  Once-on_stop m cmd cb connects s h =
      if-rule (Ensures (Follows Once old)) (J.is_null cmd.payload) _ _ (Once-call_back cb _ s h) (
        if-rule (Ensures (Follows Once old)) (J.contains cmd.payload "name") _ _
          (Option-rule (Ensures (Follows Once old))
            (then_convert (J.at cmd.payload "name") J.as_string) _ _ (Follows-Once old s h)
            (λ k _. Once-stop_named m k cb connects s h))
          (Once-call_back cb _ s h))

  pub Once-on_stop_written :
      (ec : ErrorCode) (message : String) (m : MonitorOrScraper) (k : String) (cb : Callback)
      (s : System Json)
      → Follows Same old s
      → Ensures (Follows Once old) (on_stop_written errors ec message m k cb s)
  unfolding on_stop_written
  Once-on_stop_written ec message m k cb s h =
      let gone = Once-remove_stored_socket old m k s h in
      if-rule (Ensures (Follows Once old)) (is_error ec) _ _
        (Follows-call_back errors old Once cb _ _ gone)
        (record { monitors = gone.monitors; scrapers = gone.scrapers })

  pub Once-shutdown :
      (cb : Callback) (running : Process → Bool) (s : System Json)
      → Inv s
      → Follows Same old s
      → Ensures (Follows Once old) (shutdown errors cb running s).0
  unfolding shutdown
  Once-shutdown cb running s i h =
      rw (terminate_processes_lem running s.monitors, shutdown)
        (rw (terminate_processes_lem running s.scrapers) (
          Follows-call_back errors old Once cb _ _ (record {
            monitors = λ k.
                subst (λ o. Once k o (find k (survivors s.monitors))) (sym (h.monitors k))
                  (AllLive-survivors s.monitors i.monitors.distinct k);
            scrapers = λ k.
                subst (λ o. Once k o (find k (survivors s.scrapers))) (sym (h.scrapers k))
                  (AllLive-survivors s.scrapers i.scrapers.distinct k);
          })))
