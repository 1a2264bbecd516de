-- ===== src/Moman/Invariant/Adding.antt =====
-- `onAdd` and its timer's handler, and the invariant.
use kekmonitors_cpp.Prelude.{ℕ, String, Bool, Map, find, arith, str_eq, Option-cases, inl, inr}
use kekmonitors_cpp.Core.Bimap.{BimapApi}
use kekmonitors_cpp.Core.Codes.{MonitorOrScraper, ErrorCode, is_error}
use kekmonitors_cpp.Json.{JsonApi}
use kekmonitors_cpp.Msg.Cmd.{Cmd, then_convert}
use kekmonitors_cpp.Moman.State.{
  new_stored_object, Process, StoredObject, Callback, add_wait, System, stored,
}
use kekmonitors_cpp.Moman.Add.{
  AddWorld, store_process, started, add_registered, add_named, on_add, add_cancelled, add_expired,
  on_add_timer, stored_refusal, is_cancelled,
}
use kekmonitors_cpp.Moman.Invariant.Entries.{
  All-find, AreStored-assign, AreStored-emplace, AreStored, IsStored,
}
use kekmonitors_cpp.Moman.Invariant.Base.{
  Inv, Ensures, AreStored-stored, Inv-set_stored, Inv-assign, IsStored-find, Inv-start,
}
use kekmonitors_cpp.Moman.Invariant.Answers.{
  Option-rule, Outcome-rule, if-rule, Registered-rule, Inv-call_back,
}

AreStored-store_process :
    (k : String) (p : Process) (t : ℕ) (m : Map StoredObject)
    → AreStored m
    → AreStored (store_process k p t m)
unfolding store_process new_stored_object
AreStored-store_process k p t m h = elim (Option-cases (find k m)) [
  | inl e ↦ rw (e, store_process) (AreStored-emplace k _ m h (ground arith))
  | inr (obj, e) ↦
      let old = All-find IsStored k obj m h.entries e in
      rw (e, store_process) (AreStored-assign k _ m h (ground (arith, old)))
]

module _ {Json : Type 0} ⦃J : JsonApi Json⦄ where
  Inv-started :
      (m : MonitorOrScraper) (k : String) (cb : Callback) (p : ℕ × ℕ) (s : System Json)
      → Inv s
      → Inv (started m k cb p s)
  unfolding started
  Inv-started m k cb (pid, creation) s h =
      let map =
        AreStored-store_process k (record { class_name = k; pid = pid; creation = creation })
          s.next_timer (stored m s) (AreStored-stored m s h) in
      let kept = Inv-start (add_wait s.next_timer m k cb) _ (Inv-set_stored m _ s h map) tt in
      record {
        monitors = kept.monitors;
        scrapers = kept.scrapers;
        unverified = kept.unverified;
        uncancelled = kept.uncancelled;
      }

module _ {Json M : Type 0} ⦃J : JsonApi Json⦄ ⦃b : BimapApi M⦄ (errors : M) where
  Inv-add_registered :
      (m : MonitorOrScraper) (k python : String) (cb : Callback) (w : AddWorld) (s : System Json)
      → Inv s
      → Ensures Inv (add_registered errors m k python cb w s)
  unfolding add_registered
  Inv-add_registered m k python cb w s h =
      Registered-rule (Ensures Inv) (w.find_one m k) _ _ _ _ (λ what. Inv-call_back errors cb _ s h)
        (Inv-call_back errors cb _ s h) h
        (λ path _. Option-rule (Ensures Inv) (w.spawn _) _ _ h (λ p _. Inv-started m k cb p s h))

  Inv-add_named :
      (m : MonitorOrScraper) (k : String) (cb : Callback) (w : AddWorld) (s : System Json)
      → Inv s
      → Ensures Inv (add_named errors m k cb w s)
  unfolding add_named
  Inv-add_named m k cb w s h =
      Option-rule (Ensures Inv) (stored_refusal m (find k (stored m s))) _ _
        (Outcome-rule (Ensures Inv) w.python_executable _ _ (λ e. h) (λ q. tt)
          (λ python _.
            if-rule (Ensures Inv) (str_eq python "") _ _ (Inv-call_back errors cb _ s h)
              (Inv-add_registered m k python cb w s h)))
        (λ refusal _. Inv-call_back errors cb refusal s h)

  pub Inv-on_add :
      (m : MonitorOrScraper) (cmd : Cmd Json) (cb : Callback) (w : AddWorld) (s : System Json)
      → Inv s
      → Ensures Inv (on_add errors m cmd cb w s)
  unfolding on_add
  Inv-on_add m cmd cb w s h =
      if-rule (Ensures Inv) (J.is_null cmd.payload) _ _ (Inv-call_back errors cb _ s h) (
        if-rule (Ensures Inv) (J.contains cmd.payload "name") _ _
          (Option-rule (Ensures Inv) (then_convert (J.at cmd.payload "name") J.as_string) _ _ h
            (λ k _. Inv-add_named m k cb w s h))
          (Inv-call_back errors cb _ s h))

  pub Inv-on_add_timer :
      (ec : ErrorCode) (m : MonitorOrScraper) (k : String) (cb : Callback)
      (running : Process → Bool) (s : System Json)
      → Inv s
      → Ensures Inv (on_add_timer errors ec m k cb running s)
  unfolding on_add_timer add_cancelled add_expired
  Inv-on_add_timer ec m k cb running s h =
      if-rule (Ensures Inv) (is_error ec) _ _
        (if-rule (Ensures Inv) (is_cancelled ec) _ _
          (Option-rule (Ensures Inv) (find k (stored m s)) _ _ (Inv-call_back errors cb _ s h)
            (λ obj e.
              let old = IsStored-find m k obj s h e in
              if-rule (Ensures Inv) obj.confirm_added _ _
                (Inv-call_back errors cb _ _ (Inv-assign m k _ s h (ground (arith, old))))
                (Inv-assign m k _ s h (ground (arith, old)))))
          h)
        (Option-rule (Ensures Inv) (find k (stored m s)) _ _ (Inv-call_back errors cb _ s h)
          (λ obj e.
            let old = IsStored-find m k obj s h e in
            Option-rule (Ensures Inv) obj.process _ _ tt (λ p _.
              if-rule (Ensures Inv) (running p) _ _
                (Inv-call_back errors cb _ _ (Inv-assign m k _ s h (ground (arith, old))))
                (Inv-call_back errors cb _ s h))))
