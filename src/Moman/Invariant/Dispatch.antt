-- ===== src/Moman/Invariant/Dispatch.antt =====
-- The server's callbacks, by what each handler keeps.
use kekmonitors_cpp.Prelude.{ℕ, ◌≡◌, true, some, List, [], ◌∷◌, arith, ◌==◌, Bool-cases, inl, inr}
use kekmonitors_cpp.Prelude.Outcome.{Outcome, done, throws, out_of_range}
use kekmonitors_cpp.Core.Bimap.{BimapApi}
use kekmonitors_cpp.Core.Codes.{
  CommandType, MonitorOrScraper, monitor, scraper, ErrorCode, is_error,
}
use kekmonitors_cpp.Json.{JsonApi}
use kekmonitors_cpp.Msg.Cmd.{Cmd}
use kekmonitors_cpp.Msg.Response.{Response}
use kekmonitors_cpp.Server.{callback_at, handle_callback, recover}
use kekmonitors_cpp.Moman.State.{direct, Joint, joint_add, joint_status, joint_stop, System}
use kekmonitors_cpp.Moman.Reply.{write_response, call_back, create_completion}
use kekmonitors_cpp.Moman.Add.{on_add}
use kekmonitors_cpp.Moman.Stop.{on_stop}
use kekmonitors_cpp.Moman.Status.{shutdown, on_ping, on_get_status}
use kekmonitors_cpp.Moman.Loop.{World, callback_map, receive}
use kekmonitors_cpp.Moman.Invariant.Answers.{Option-rule, if-cases}

module _ {Json : Type 0} (P : ℕ → System Json → Type 0)
    (Q : ℕ → Outcome (System Json) → Type 0) where
  -- Each callback of the list takes one to the other.
  abbrev AllKeep :
      List (CommandType × (Cmd Json → ℕ → System Json → Outcome (System Json))) → Type 0
  AllKeep [] = Unit
  AllKeep ((k, f) ∷ m) =
      ((cmd : Cmd Json) (c : ℕ) (s : System Json) → P c s → Q c (f cmd c s)) × AllKeep m

  AllKeep-callback_at :
      (m : List (CommandType × (Cmd Json → ℕ → System Json → Outcome (System Json))))
      (k : CommandType) (f : Cmd Json → ℕ → System Json → Outcome (System Json))
      → AllKeep m
      → callback_at k m ≡ some f
      → (cmd : Cmd Json) (c : ℕ) (s : System Json) → P c s
      → Q c (f cmd c s)
  unfolding callback_at
  AllKeep-callback_at [] k f h e = absurd (ground arith)
  AllKeep-callback_at ((j, g) ∷ m) k f h e = elim (Bool-cases (j == k)) [
    | inl hit ↦ let same : f ≡ g = ground arith in rw same h.0
    | inr miss ↦ AllKeep-callback_at m k f h.1 (ground arith)
  ]

  module _ {M : Type 0} ⦃J : JsonApi Json⦄ ⦃b : BimapApi M⦄ (errors : M) (w : World)
      (answer : (r : Response Json) (c : ℕ) (s : System Json)
        → P c s
        → Q c (call_back errors (direct c) r s))
      (shut : (c : ℕ) (s : System Json) → P c s → Q c (shutdown errors (direct c) w.running s).0)
      (add : (m : MonitorOrScraper) (cmd : Cmd Json) (c : ℕ) (s : System Json)
        → P c s
        → Q c (on_add errors m cmd (direct c) w.add s))
      (stop : (m : MonitorOrScraper) (cmd : Cmd Json) (c : ℕ) (s : System Json)
        → P c s
        → Q c (on_stop errors m cmd (direct c) w.connects s))
      (join : (j : Joint) (cmd : Cmd Json) (c : ℕ) (s : System Json)
        → P c s
        → Q c (done (create_completion j cmd c s))) where
    AllKeep-callback_map : AllKeep (callback_map errors w)
    unfolding callback_map on_ping on_get_status
    AllKeep-callback_map = (
      λ cmd c s h. answer _ c s h,
      (
        λ cmd c s h. shut c s h,
        (
          add monitor,
          (
            add scraper,
            (
              join joint_add,
              (
                λ cmd c s h. answer _ c s h,
                (
                  λ cmd c s h. answer _ c s h,
                  (join joint_status, (stop monitor, (stop scraper, (join joint_stop, tt)))),
                ),
              ),
            ),
          ),
        ),
      ),
    )

    keeps-callback :
        (k : CommandType) (f : Cmd Json → ℕ → System Json → Outcome (System Json))
        → callback_at k (callback_map errors w) ≡ some f
        → (cmd : Cmd Json) (c : ℕ) (s : System Json) → P c s
        → Q c (f cmd c s)
    keeps-callback k f e = AllKeep-callback_at (callback_map errors w) k f AllKeep-callback_map e

    -- What is read and handed to the server's `_handleCallback`.
    pub keeps-receive :
        (R : Outcome (System Json) → Type 0) (err : ErrorCode)
        → ((c : ℕ) (s : System Json) → is_error err ≡ true → P c s → R (done s))
        → ((c : ℕ) (s : System Json) → P c s → Q c (throws out_of_range s))
        → ((c : ℕ) (o : Outcome (System Json)) → Q c o → R (recover write_response c o))
        → (cmd : Cmd Json) (c : ℕ) (s : System Json) → P c s
        → R (receive errors w err cmd c s)
    unfolding receive handle_callback
    keeps-receive R err ignored thrown recovered cmd c s h =
        if-cases R (is_error err) _ _ (λ e. ignored c s e h)
          (λ _. recovered c _ (
            Option-rule (Q c) (callback_at cmd.cmd (callback_map errors w)) _ _ (thrown c s h)
              (λ f e. keeps-callback cmd.cmd f e cmd c s h)))
