-- ===== src/Moman/Defined/Rounds.antt =====
-- One round of the loop, by whether its behaviour is defined.
use kekmonitors_cpp.Prelude.{
  ℕ, ◌≡◌, ◌↔◌, subst, Bool, true, false, none, some, get_elem?, arith, Option-cases, Bool-cases,
  inl, inr,
}
use kekmonitors_cpp.Prelude.Outcome.{Outcome, done, throws, undefined, out_of_range}
use kekmonitors_cpp.Core.Bimap.{BimapApi}
use kekmonitors_cpp.Core.Codes.{ErrorCode}
use kekmonitors_cpp.Json.{JsonApi}
use kekmonitors_cpp.Msg.Cmd.{Cmd}
use kekmonitors_cpp.Server.{recover}
use kekmonitors_cpp.Moman.State.{direct, System}
use kekmonitors_cpp.Moman.Reply.{write_response}
use kekmonitors_cpp.Moman.Start.{StartWorld, init}
use kekmonitors_cpp.Moman.Loop.{
  World, Event, accepts, receives, ends, exits, notifies, sent, receive, handle, Reach,
}
use kekmonitors_cpp.Moman.Defined.{
  IsDefined, call_back-IsDefined, on_add-IsDefined, on_stop-IsDefined, shutdown-IsDefined,
}
use kekmonitors_cpp.Moman.Invariant.Answers.{Option-rule}
use kekmonitors_cpp.Moman.Invariant.Base.{AllUnverified-get_elem?, Inv}
use kekmonitors_cpp.Moman.Invariant.Dispatch.{keeps-receive}
use kekmonitors_cpp.Moman.Invariant.Rounds.{Reach-init-Inv}
use kekmonitors_cpp.Moman.OneAnswer.Held.{Held}
use kekmonitors_cpp.Moman.OneAnswer.Losses.{none_each, one_each}
use kekmonitors_cpp.Moman.OneAnswer.Serving.{Held-take}
use kekmonitors_cpp.Moman.OneAnswer.Rounds.{Reach-init-Held}
use kekmonitors_cpp.Moman.Defined.Resuming.{
  is_bare_expiry, is_bare_expiry-take, resume-IsDefined, resume_bare,
}

module _ {Json : Type 0} where
  abbrev pub expires_bare : Event Json → System Json → Bool
  expires_bare (ends n e) s = elim (get_elem? s.pending n) [
    | none ↦ false
    | some p ↦ is_bare_expiry p e.error s
  ]
  expires_bare _ s = false

  -- Whether the watcher has events.
  abbrev pub is_watched_event : Event Json → Bool
  is_watched_event (notifies watcher events) = true
  is_watched_event _ = false

module _ {Json M : Type 0} ⦃J : JsonApi Json⦄ ⦃b : BimapApi M⦄ (errors : M) where
  recover-IsDefined :
      (c : ℕ) (o : Outcome (System Json)) → IsDefined o → IsDefined (recover write_response c o)
  unfolding recover
  recover-IsDefined c (done s) h = tt
  recover-IsDefined c (throws out_of_range s) h = tt
  recover-IsDefined c (throws _ s) h = tt
  recover-IsDefined c undefined h = absurd h

  receive-IsDefined :
      (w : World) (err : ErrorCode) (cmd : Cmd Json) (c : ℕ) (s : System Json)
      → IsDefined w.add.python_executable
      → IsDefined (receive errors w err cmd c s)
  receive-IsDefined w err cmd c s py =
      keeps-receive (λ c s. Unit) (λ c o. IsDefined o) errors w
        (λ r c s h. call_back-IsDefined errors (direct c) r s tt)
        (λ c s h. shutdown-IsDefined errors c w.running s)
        (λ m cmd c s h. on_add-IsDefined errors m cmd (direct c) w.add s tt py)
        (λ m cmd c s h. on_stop-IsDefined errors m cmd (direct c) w.connects s tt)
        (λ j cmd c s h. tt) IsDefined err (λ c s _ h. tt) (λ c s h. tt) recover-IsDefined cmd c s tt

  handle-IsDefined :
      (w : World) (e : Event Json) (s : System Json)
      → Inv s
      → Held none_each one_each none s
      → is_watched_event e ≡ false
      → expires_bare e s ≡ false
      → IsDefined w.add.python_executable
      → IsDefined (handle errors w e s)
  unfolding handle
  handle-IsDefined w (accepts err) s h n own bare py =
      Option-rule IsDefined s.server.accepting _ _ tt (λ c _. tt)
  handle-IsDefined w (receives i err cmd) s h n own bare py =
      Option-rule IsDefined (get_elem? s.server.reading i) _ _ tt
        (λ c _. receive-IsDefined w err cmd c _ py)
  handle-IsDefined w (ends i e) s h n own bare py =
      Option-rule IsDefined (get_elem? s.pending i) _ _ tt (λ p q.
        let kept : is_bare_expiry p e.error s ≡ false = ground (arith, q, bare) in
        resume-IsDefined errors w p e _ (AllUnverified-get_elem? s.pending i p h.unverified q)
          (Held-take i p s q n) (rw (is_bare_expiry-take i p e.error s) kept) py)
  handle-IsDefined w (exits ec m k) s h n own bare py = tt
  handle-IsDefined w (notifies watcher events) s h n own bare py = absurd (ground (arith, own))
  handle-IsDefined w (sent i err) s h n own bare py = tt

  handle_bare :
      (w : World) (e : Event Json) (s : System Json)
      → expires_bare e s ≡ true
      → handle errors w e s ≡ undefined
  unfolding handle
  handle_bare w (ends i e) s h = elim (Option-cases (get_elem? s.pending i)) [
    | inl q ↦ absurd (ground (arith, q, h))
    | inr (p, q) ↦
        let bare : is_bare_expiry p e.error s ≡ true = ground (arith, q, h) in
        rw (q, handle) (resume_bare errors w p e _ (rw (is_bare_expiry-take i p e.error s) bare))
  ]
  handle_bare w (accepts err) s h = absurd (ground (arith, h))
  handle_bare w (receives i err cmd) s h = absurd (ground (arith, h))
  handle_bare w (exits ec m k) s h = absurd (ground (arith, h))
  handle_bare w (notifies watcher events) s h = absurd (ground (arith, h))
  handle_bare w (sent i err) s h = absurd (ground (arith, h))

  -- In every state that the event loop reaches from the one that the constructor leaves, the next
  -- round, unless it is one for events of the watcher, and where `getPythonExecutable` returns or
  -- throws, has undefined behaviour exactly if it is the expiry of the timer of an `onAdd` for whose
  -- class name an object without a process is stored.
  pub handle-undefined :
      {t : System Json} (w : StartWorld)
      → Reach errors (init w) t
      → (v : World) (e : Event Json) → is_watched_event e ≡ false
      → IsDefined v.add.python_executable
      → (handle errors v e t ≡ undefined) ↔ (expires_bare e t ≡ true)
  handle-undefined {t} w reach v e own py = (
    λ q. elim (Bool-cases (expires_bare e t)) [
      | inl bare ↦ bare
      | inr fine ↦ absurd (
          subst IsDefined q (
            handle-IsDefined v e t (Reach-init-Inv errors w reach) (Reach-init-Held errors w reach)
              own fine py))
    ],
    handle_bare v e t,
  )
