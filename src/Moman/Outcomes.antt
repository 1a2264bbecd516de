-- ===== src/Moman/Outcomes.antt =====
-- What the handlers of the manager do, branch by branch.
use Prim.Native.String.{◌++◌}
use kekmonitors_cpp.Prelude.{
  ℕ, String, ◌≡◌, ◌≢◌, refl, ◌⊎◌, inl, inr, true, false, Option, none, some, ◌∷◌, Map, find, arith,
  eq_iff, str_eq, Option-cases, find-assign, find-emplace,
}
use kekmonitors_cpp.Prelude.Outcome.{
  Exn, Outcome, done, throws, undefined, bson_exception, process_error, json_exception,
}
use kekmonitors_cpp.Core.Bimap.{BimapApi}
use kekmonitors_cpp.Core.Codes.{
  MonitorOrScraper, monitor, scraper, error_type, missing_payload, missing_payload_args,
}
use kekmonitors_cpp.Json.{JsonApi}
use kekmonitors_cpp.Msg.Cmd.{Cmd, then_convert}
use kekmonitors_cpp.Msg.Response.{Response}
use kekmonitors_cpp.Moman.State.{
  Process, StoredObject, new_stored_object, Callback, direct, add_wait, System, stored,
}
use kekmonitors_cpp.Moman.Reply.{write_response, call_back}
use kekmonitors_cpp.Moman.Add.{
  registered, AddWorld, error_response, stored_refusal, store_process, with_process, started,
  add_error, not_registered_error, add_registered, add_named, on_add,
}
use kekmonitors_cpp.Moman.Invariant.Answers.{Option-rule, Outcome-rule, if-rule, Registered-rule}

-- The object behind a name after a process was stored for it.
find-store_process :
    (k : String) (p : Process) (t : ℕ) (m : Map StoredObject)
    → (obj : StoredObject) × (find k (store_process k p t m) ≡ some obj)
      × (obj.process ≡ some p)
      × (obj.on_add_timer ≡ some t)
      × (obj.is_being_added ≡ true)
unfolding store_process
find-store_process k p t m = elim (Option-cases (find k m)) [
  | inl e ↦ (
    with_process p t (new_stored_object k),
    rw (e, store_process)
        (ground
          (arith, e, eq_iff k k, find-emplace k k (with_process p t (new_stored_object k)) m)),
    refl,
    refl,
    refl,
  )
  | inr (obj, e) ↦ (
    with_process p t obj,
    rw (e, store_process) (ground (arith, e, eq_iff k k, find-assign k k (with_process p t obj) m)),
    refl,
    refl,
    refl,
  )
]

-- An object that can be added anew.
abbrev pub IsFree : Option StoredObject → Type 0
IsFree none = Unit {0}
IsFree (some obj) = (obj.is_being_added ≡ false) × (obj.process ≡ none) × (obj.endpoint ≡ none)

error_type-pos :
    (m : MonitorOrScraper)
    → (error_type (add_error m) ≢ 0) × (error_type (not_registered_error m) ≢ 0)
unfolding error_type
error_type-pos monitor = (omega arith, omega arith)
error_type-pos scraper = (omega arith, omega arith)

pub payload_errors : (error_type missing_payload ≢ 0) × (error_type missing_payload_args ≢ 0)
unfolding error_type
payload_errors = (omega arith, omega arith)

module _ {Json : Type 0} ⦃J : JsonApi Json⦄ where
  -- The handler answered with an error and changed nothing else.
  abbrev pub Refuses : ℕ → System Json → Outcome (System Json) → Type 0
  Refuses c s o = (r : Response Json) × (o ≡ done (write_response c r s)) × (r.error ≢ 0)

  -- The handler threw and changed nothing.
  abbrev pub Throws : System Json → Outcome (System Json) → Type 0
  Throws s o = (e : Exn) × (o ≡ throws e s)

  -- The handler read the class name `k` from the command, found it free and registered with a path,
  -- started Python with that path and the two options, stored the process, wrote no answer, and waits.
  abbrev pub Starts :
      MonitorOrScraper → Cmd Json → ℕ → AddWorld → System Json → Outcome (System Json) → Type 0
  Starts m cmd c w s o =
      (k : String) × (python : String) × (path : String) × (pid : ℕ) × (creation : ℕ) × (t : System
        Json)
      × (obj : StoredObject) × (then_convert (J.at cmd.payload "name") J.as_string ≡ some k)
      × IsFree (find k (stored m s))
      × (w.python_executable ≡ done python)
      × (w.find_one m k ≡ registered (some path))
      × (w.spawn (python ++ (" " ++ (path ++ " --no-config-watcher --no-output")))
          ≡ some (pid, creation))
      × (o ≡ done t)
      × (t.replies ≡ s.replies)
      × (t.pending ≡ add_wait s.next_timer m k (direct c) ∷ s.pending)
      × (find k (stored m t) ≡ some obj)
      × (obj.process ≡ some (record { class_name = k; pid = pid; creation = creation }))
      × (obj.on_add_timer ≡ some s.next_timer)
      × (obj.is_being_added ≡ true)

  -- One of the four outcomes of `onAdd`.
  abbrev pub AddResult :
      MonitorOrScraper → Cmd Json → ℕ → AddWorld → System Json → Outcome (System Json) → Type 0
  AddResult m cmd c w s o =
      Refuses c s o
      ⊎ (Starts m cmd c w s o
          ⊎ (Throws s o ⊎ ((w.python_executable ≡ undefined) × (o ≡ undefined))))

  stored_refusal-IsFree :
      (m : MonitorOrScraper) (o : Option StoredObject)
      → stored_refusal {Json = Json} m o ≡ none
      → IsFree o
  unfolding stored_refusal
  stored_refusal-IsFree m none e = tt
  stored_refusal-IsFree m (some obj) e = ground arith

  started-Starts :
      (m : MonitorOrScraper) (cmd : Cmd Json) (c : ℕ) (w : AddWorld) (k python path : String)
      (p : ℕ × ℕ) (s : System Json)
      → then_convert (J.at cmd.payload "name") J.as_string ≡ some k
      → stored_refusal {Json = Json} m (find k (stored m s)) ≡ none
      → w.python_executable ≡ done python
      → w.find_one m k ≡ registered (some path)
      → w.spawn (python ++ (" " ++ (path ++ " --no-config-watcher --no-output"))) ≡ some p
      → Starts m cmd c w s (done (started m k (direct c) p s))
  unfolding started
  started-Starts monitor cmd c w k python path (pid, creation) s name free py found spawned =
      let p : Process = record { class_name = k; pid = pid; creation = creation } in
      let (obj, at, has, timer, added) = find-store_process k p s.next_timer s.monitors in
      let t = started monitor k (direct c) (pid, creation) s in
      (
        k,
        python,
        path,
        pid,
        creation,
        t,
        obj,
        name,
        stored_refusal-IsFree monitor (find k s.monitors) free,
        py,
        found,
        spawned,
        refl,
        refl,
        refl,
        at,
        has,
        timer,
        added,
      )
  started-Starts scraper cmd c w k python path (pid, creation) s name free py found spawned =
      let p : Process = record { class_name = k; pid = pid; creation = creation } in
      let (obj, at, has, timer, added) = find-store_process k p s.next_timer s.scrapers in
      let t = started scraper k (direct c) (pid, creation) s in
      (
        k,
        python,
        path,
        pid,
        creation,
        t,
        obj,
        name,
        stored_refusal-IsFree scraper (find k s.scrapers) free,
        py,
        found,
        spawned,
        refl,
        refl,
        refl,
        at,
        has,
        timer,
        added,
      )

module _ {Json M : Type 0} ⦃J : JsonApi Json⦄ ⦃b : BimapApi M⦄ (errors : M) where
  pub refused :
      (c : ℕ) (r : Response Json) (s : System Json)
      → r.error ≢ 0
      → Refuses c s (call_back errors (direct c) r s)
  unfolding call_back
  refused c r s h = (r, refl, h)

  stored_refusal-error :
      (m : MonitorOrScraper) (o : Option StoredObject) (r : Response Json)
      → stored_refusal m o ≡ some r
      → r.error ≢ 0
  unfolding stored_refusal
  stored_refusal-error m none r e = absurd (ground arith)
  stored_refusal-error m (some obj) r e = ground (arith, error_type-pos m)

  add_registered-AddResult :
      (m : MonitorOrScraper) (cmd : Cmd Json) (k python : String) (c : ℕ) (w : AddWorld)
      (s : System Json)
      → then_convert (J.at cmd.payload "name") J.as_string ≡ some k
      → stored_refusal {Json = Json} m (find k (stored m s)) ≡ none
      → w.python_executable ≡ done python
      → AddResult m cmd c w s (add_registered errors m k python (direct c) w s)
  unfolding add_registered error_response
  add_registered-AddResult m cmd k python c w s name free py =
      let P = AddResult m cmd c w s in
      Registered-rule P (w.find_one m k) _ _ _ _ (λ what. inl (refused c _ s (error_type-pos m).0))
        (inl (refused c _ s (error_type-pos m).1)) (inr (inr (inl (bson_exception, refl))))
        (λ path found.
          Option-rule P (w.spawn _) _ _ (inr (inr (inl (process_error, refl)))) (λ p spawned.
            inr (inl (started-Starts m cmd c w k python path p s name free py found spawned))))

  add_named-AddResult :
      (m : MonitorOrScraper) (cmd : Cmd Json) (k : String) (c : ℕ) (w : AddWorld) (s : System Json)
      → then_convert (J.at cmd.payload "name") J.as_string ≡ some k
      → AddResult m cmd c w s (add_named errors m k (direct c) w s)
  unfolding add_named error_response
  add_named-AddResult m cmd k c w s name =
      let P = AddResult m cmd c w s in
      elim (Option-cases (stored_refusal {Json = Json} m (find k (stored m s)))) [
        | inl free ↦
            rw (free, add_named)
              (Outcome-rule P w.python_executable _ _ (λ e. inr (inr (inl (e, refl))))
                (λ q. inr (inr (inr (q, refl))))
                (λ python py.
                  if-rule P (str_eq python "") _ _ (inl (refused c _ s (error_type-pos m).0))
                    (add_registered-AddResult m cmd k python c w s name free py)))
        | inr (r, e) ↦
            rw (e, add_named)
              (inl (refused c r s (stored_refusal-error m (find k (stored m s)) r e)))
      ]

  -- `onAdd` for a client's connection does one of four things: it answers with an error and changes
  -- nothing else; or it takes the class name that the command's payload has under "name", which
  -- has no process, no socket and no addition under way, starts the Python that was found with
  -- the path that is registered for it and the two options, stores that process for it, writes no
  -- answer yet, and waits with a new timer that the object owns; or an exception leaves it and
  -- nothing has changed; or `getPythonExecutable` is undefined, and so is `onAdd`.
  pub on_add-AddResult :
      (m : MonitorOrScraper) (cmd : Cmd Json) (c : ℕ) (w : AddWorld) (s : System Json)
      → AddResult m cmd c w s (on_add errors m cmd (direct c) w s)
  unfolding on_add error_response
  on_add-AddResult m cmd c w s =
      let P = AddResult m cmd c w s in
      if-rule P (J.is_null cmd.payload) _ _ (inl (refused c _ s payload_errors.0)) (
        if-rule P (J.contains cmd.payload "name") _ _
          (Option-rule P (then_convert (J.at cmd.payload "name") J.as_string) _ _
            (inr (inr (inl (json_exception, refl))))
            (λ k name. add_named-AddResult m cmd k c w s name))
          (inl (refused c _ s payload_errors.1)))

  -- A payload whose "name" is not a text makes `onAdd` throw an exception that the server does not
  -- catch.
  pub on_add_bad_name :
      (m : MonitorOrScraper) (cmd : Cmd Json) (cb : Callback) (w : AddWorld) (s : System Json)
      (name : Json)
      → J.is_null cmd.payload ≡ false
      → J.at cmd.payload "name" ≡ some name
      → J.as_string name ≡ none
      → on_add errors m cmd cb w s ≡ throws json_exception s
  unfolding on_add
  on_add_bad_name m cmd cb w s name p q r =
      ground (arith, J.contains-at cmd.payload "name", p, q, r)
