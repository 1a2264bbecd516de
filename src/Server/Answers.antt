-- ===== src/Server/Answers.antt =====
-- What the server does with a command.
use kekmonitors_cpp.Prelude.{
  ℕ, ◌≡◌, ◌≢◌, refl, ◌⊎◌, inl, inr, false, none, some, List, Option-cases,
}
use kekmonitors_cpp.Prelude.Outcome.{Outcome, done, throws, undefined, out_of_range}
use kekmonitors_cpp.Core.Codes.{error_type, CommandType, ErrorCode, is_error}
use kekmonitors_cpp.Json.{JsonApi}
use kekmonitors_cpp.Msg.Cmd.{Cmd}
use kekmonitors_cpp.Msg.Response.{Response, new_response}
use kekmonitors_cpp.Server.{callback_at, unrecognized, invoke, recover, handle_callback}

module _ {Json S : Type 0} ⦃J : JsonApi Json⦄ (write : ℕ → Response Json → S → S) where
  recover_lem :
      (connection : ℕ) (o : Outcome S)
      → ((t : S) × (o ≡ throws out_of_range t)
          × (recover write connection o
              ≡ done (write connection (record { error = 8; info = ""; payload = J.null }) t)))
        ⊎ (((t : S) → o ≢ throws out_of_range t) × (recover write connection o ≡ o))
  unfolding recover unrecognized new_response error_type
  recover_lem connection (done s) = inr (λ t q. cc, refl)
  recover_lem connection (throws out_of_range s) = inl (s, refl, refl)
  recover_lem connection (throws _ s) = inr (λ t q. cc, refl)
  recover_lem connection undefined = inr (λ t q. cc, refl)

  -- A command that was read is answered with the error 8, which is `UNRECOGNIZED_COMMAND`, no
  -- information and no payload exactly where no callback is registered for it or the callback throws
  -- `std::out_of_range`; else the callback's outcome, other
  -- exceptions included, is the server's.
  pub handle_callback_lem :
      (callbacks : List (CommandType × (Cmd Json → ℕ → S → Outcome S))) (err : ErrorCode)
      (cmd : Cmd Json) (connection : ℕ) (s : S)
      → is_error err ≡ false
      → ((callback_at cmd.cmd callbacks ≡ none)
          × (handle_callback write callbacks err cmd connection s
              ≡ done (write connection (record { error = 8; info = ""; payload = J.null }) s)))
        ⊎ ((f : Cmd Json → ℕ → S → Outcome S) × (callback_at cmd.cmd callbacks ≡ some f)
            × (((t : S) × (f cmd connection s ≡ throws out_of_range t)
                  × (handle_callback write callbacks err cmd connection s
                      ≡ done
                          (write connection (record { error = 8; info = ""; payload = J.null }) t)))
                ⊎ (((t : S) → f cmd connection s ≢ throws out_of_range t)
                    × (handle_callback write callbacks err cmd connection s ≡ f cmd connection s))))
  unfolding handle_callback invoke unrecognized new_response error_type
  handle_callback_lem callbacks err cmd connection s e =
      elim (Option-cases (callback_at cmd.cmd callbacks)) [
        | inl missing ↦ inl (missing, rw e (rw (missing, invoke) refl))
        | inr (f, found) ↦
            inr (f, found, rw e (rw (found, invoke) (recover_lem connection (f cmd connection s))))
      ]
