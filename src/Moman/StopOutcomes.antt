-- ===== src/Moman/StopOutcomes.antt =====
-- What `MonitorManager::onStop` of src/bin/moman/callbacks.cpp does, branch by branch.
use kekmonitors_cpp.Prelude.{
  ℕ, String, Bool, ◌≡◌, ◌≢◌, refl, ◌⊎◌, inl, inr, true, false, some, ◌∷◌, Map, find, assign, arith,
  eq_iff, Bool-cases, find-assign, ◌∙◌, ap,
}
use kekmonitors_cpp.Prelude.Outcome.{Outcome, done, throws, json_exception, system_error}
use kekmonitors_cpp.Core.Bimap.{BimapApi}
use kekmonitors_cpp.Core.Codes.{
  MonitorOrScraper, monitor, scraper, command_type, error_type, socket_doesnt_exist,
}
use kekmonitors_cpp.Json.{JsonApi}
use kekmonitors_cpp.Msg.Cmd.{Cmd, then_convert}
use kekmonitors_cpp.Moman.State.{
  StoredObject, Pending, direct, stop_write, System, stored, set_stored, start,
}
use kekmonitors_cpp.Moman.Add.{error_response}
use kekmonitors_cpp.Moman.Stop.{stop_error, stop_connect, stop_named, on_stop}
use kekmonitors_cpp.Moman.Invariant.Answers.{Option-rule, if-rule, if-cases}
use kekmonitors_cpp.Moman.Outcomes.{Refuses, Throws, refused, payload_errors}

stop_errors :
    (m : MonitorOrScraper) → (error_type (stop_error m) ≢ 0) × (error_type socket_doesnt_exist ≢ 0)
unfolding error_type
stop_errors monitor = (omega arith, omega arith)
stop_errors scraper = (omega arith, omega arith)

find-set_stored :
    {Json : Type 0} (m : MonitorOrScraper) (k : String) (old new : StoredObject) (s : System Json)
    → find k (stored m s) ≡ some old
    → find k (stored m (set_stored m (assign k new (stored m s)) s)) ≡ some new
find-set_stored monitor k old new s e =
    ground (arith, e, eq_iff k k, find-assign k k new s.monitors)
find-set_stored scraper k old new s e =
    ground (arith, e, eq_iff k k, find-assign k k new s.scrapers)

kept-set_stored :
    {Json : Type 0} (m : MonitorOrScraper) (map : Map StoredObject) (s : System Json)
    → ((set_stored m map s).replies ≡ s.replies) × ((set_stored m map s).pending ≡ s.pending)
kept-set_stored monitor map s = (refl, refl)
kept-set_stored scraper map s = (refl, refl)

stored-start :
    {Json : Type 0} (m : MonitorOrScraper) (p : Pending) (s : System Json)
    → stored m (start p s) ≡ stored m s
stored-start monitor p s = refl
stored-start scraper p s = refl

module _ {Json : Type 0} ⦃J : JsonApi Json⦄ where
  -- Where the socket accepts, a write of the command STOP, which is 2, to it is started; else an
  -- exception leaves.
  abbrev pub Connects :
      MonitorOrScraper
      → ℕ
      → String
      → String
      → Bool
      → System Json
      → System Json
      → Outcome (System Json)
      → Type 0
  Connects m c k ep true s t o =
      (o ≡ done t) × (t.pending ≡ stop_write m k (direct c) ep 2 ∷ s.pending)
  Connects m c k ep false s t o = (o ≡ throws system_error t) × (t.pending ≡ s.pending)

  -- The handler read the class name `k` from the command, marked its object, which has a socket and
  -- was not being stopped, wrote no answer, and connected to the socket.
  abbrev pub Stops :
      MonitorOrScraper
      → Cmd Json
      → ℕ
      → (String → Bool)
      → System Json
      → Outcome (System Json)
      → Type 0
  Stops m cmd c connects s o =
      (k : String) × (ep : String) × (obj : StoredObject) × (t : System Json) × (then_convert
          (J.at cmd.payload "name") J.as_string
        ≡ some k)
      × (find k (stored m s) ≡ some obj)
      × (obj.endpoint ≡ some ep)
      × (obj.is_being_stopped ≡ false)
      × (find k (stored m t) ≡ some (record obj { is_being_stopped = true }))
      × (t.replies ≡ s.replies)
      × Connects m c k ep (connects ep) s t o

  abbrev pub StopResult :
      MonitorOrScraper
      → Cmd Json
      → ℕ
      → (String → Bool)
      → System Json
      → Outcome (System Json)
      → Type 0
  StopResult m cmd c connects s o = Refuses c s o ⊎ (Stops m cmd c connects s o ⊎ Throws s o)

module _ {Json M : Type 0} ⦃J : JsonApi Json⦄ ⦃b : BimapApi M⦄ (errors : M) where
  stop_connect-Stops :
      (m : MonitorOrScraper) (cmd : Cmd Json) (c : ℕ) (k ep : String) (connects : String → Bool)
      (obj : StoredObject) (s : System Json)
      → then_convert (J.at cmd.payload "name") J.as_string ≡ some k
      → find k (stored m s) ≡ some obj
      → obj.endpoint ≡ some ep
      → obj.is_being_stopped ≡ false
      → Stops m cmd c connects s (stop_connect errors m k (direct c) connects obj ep s)
  unfolding stop_connect command_type
  stop_connect-Stops m cmd c k ep connects obj s name e q f =
      let new = record obj { is_being_stopped = true } in
      let marked = set_stored m (assign k new (stored m s)) s in
      let at = find-set_stored m k obj new s e in
      let kept = kept-set_stored m (assign k new (stored m s)) s in
      elim (Bool-cases (connects ep)) [
        | inl a ↦ (
          k,
          ep,
          obj,
          start (stop_write m k (direct c) ep 2) marked,
          name,
          e,
          q,
          f,
          ap (find k) (stored-start m (stop_write m k (direct c) ep 2) marked) ∙ at,
          kept.0,
          rw (a, stop_connect) (refl, ap (λ l. stop_write m k (direct c) ep 2 ∷ l) kept.1),
        )
        | inr a ↦
            (k, ep, obj, marked, name, e, q, f, at, kept.0, rw (a, stop_connect) (refl, kept.1))
      ]

  -- `onStop` for a client's connection does one of three things: it answers with an error and changes
  -- nothing else; or it takes the class name that the command's payload has under "name", marks
  -- its object, which has a socket and is not being stopped, writes no answer, and either the socket
  -- accepts and a write of the command STOP, which is 2, to it is started, or an exception leaves
  -- the handler with the object marked; or an exception leaves it and nothing has changed.
  pub on_stop-StopResult :
      (m : MonitorOrScraper) (cmd : Cmd Json) (c : ℕ) (connects : String → Bool) (s : System Json)
      → StopResult m cmd c connects s (on_stop errors m cmd (direct c) connects s)
  unfolding on_stop stop_named error_response
  on_stop-StopResult m cmd c connects s =
      let P = StopResult m cmd c connects s in
      if-rule P (J.is_null cmd.payload) _ _ (inl (refused errors c _ s payload_errors.0)) (
        if-rule P (J.contains cmd.payload "name") _ _
          (Option-rule P (then_convert (J.at cmd.payload "name") J.as_string) _ _
            (inr (inr (json_exception, refl)))
            (λ k name.
              Option-rule P (find k (stored m s)) _ _ (inl (refused errors c _ s (stop_errors m).1))
                (λ obj e.
                  Option-rule P obj.endpoint _ _ (inl (refused errors c _ s (stop_errors m).1))
                    (λ ep q.
                      if-cases P obj.is_being_stopped _ _
                        (λ _. inl (refused errors c _ s (stop_errors m).0))
                        (λ f.
                          inr (inl (stop_connect-Stops m cmd c k ep connects obj s name e q f)))))))
          (inl (refused errors c _ s payload_errors.1)))
