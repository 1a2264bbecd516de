-- ===== src/Moman/Reply.antt =====
-- How a handler answers: `UserResponseCallback` and `MonitorScraperCompletion`, of
-- src/bin/moman/callbacks.cpp.
use kekmonitors_cpp.Prelude.{
  ℕ, true, false, none, some, [], ◌∷◌, ◌++◌, length, get_elem?, set, if◌then◌else◌,
}
use kekmonitors_cpp.Prelude.Outcome.{Try, returns, raises, Outcome, done, throws, undefined}
use kekmonitors_cpp.Core.Bimap.{BimapApi}
use kekmonitors_cpp.Core.Codes.{
  monitor, scraper, unknown_error, mm_couldnt_add_monitor_scraper, mm_couldnt_stop_monitor_scraper,
}
use kekmonitors_cpp.Json.{JsonApi}
use kekmonitors_cpp.Msg.Cmd.{Cmd}
use kekmonitors_cpp.Msg.Response.{Response, new_response}
use kekmonitors_cpp.Utils.Common.{make_common_response}
use kekmonitors_cpp.Moman.State.{
  Callback, direct, half, Joint, joint_add, joint_status, joint_stop, Completion, posted, System,
}

module _ {Json : Type 0} where
  -- `Connection::asyncWriteResponse`, bound to a connection.
  unfoldable pub write_response : ℕ → Response Json → System Json → System Json
  write_response connection r s = record s { replies = (connection, r) ∷ s.replies }

module _ {Json M : Type 0} ⦃J : JsonApi Json⦄ ⦃b : BimapApi M⦄ (errors : M) where
  null_as_object : Json → Json
  null_as_object payload = if J.is_null payload then J.object else payload

  -- The second argument of `MonitorScraperCompletion::create` in each of the three handlers.
  unfoldable pub joint_response : Joint → Response Json → Response Json → Try (Response Json)
  unfolding make_common_response null_as_object
  joint_response joint_add first second =
      make_common_response errors first second mm_couldnt_add_monitor_scraper
  joint_response joint_stop first second =
      make_common_response errors first second mm_couldnt_stop_monitor_scraper
  joint_response joint_status first second =
      elim (make_common_response errors first second unknown_error) [
        | raises e ↦ raises e
        | returns response ↦
            let monitors = J.put J.null "monitors" (null_as_object first.payload) in
            let payload = J.put monitors "scrapers" (null_as_object second.payload) in
            returns (record response { payload = payload })
      ]

  -- `m_completionCb(m_firstResponse, response)`
  unfoldable pub complete : Completion Json → Response Json → System Json → Outcome (System Json)
  unfolding joint_response write_response
  complete c response s = elim (joint_response c.joint c.first_response response) [
    | raises e ↦ throws e s
    | returns r ↦ done (write_response c.connection r s)
  ]

  -- `checkForCompletion`
  unfoldable pub check_for_completion : ℕ → Response Json → System Json → Outcome (System Json)
  unfolding complete
  check_for_completion id response s = elim (get_elem? s.completions id) [
    | none ↦ undefined
    | some c ↦
        if c.both_completed
        then complete c response s
        else done (record s {
          completions =
              set s.completions id (record c { both_completed = true; first_response = response });
        })
  ]

  -- `cb(response, connection)`
  unfoldable pub call_back : Callback → Response Json → System Json → Outcome (System Json)
  unfolding write_response check_for_completion
  call_back (direct connection) response s = done (write_response connection response s)
  call_back (half id) response s = check_for_completion id response s

module _ {Json : Type 0} ⦃J : JsonApi Json⦄ where
  -- `MonitorScraperCompletion::create` and `run`: two posted calls, the monitor's first.
  unfoldable pub create_completion : Joint → Cmd Json → ℕ → System Json → System Json
  unfolding new_response
  create_completion joint cmd connection s =
      let c : Completion Json = record {
        both_completed = false;
        cmd = cmd;
        joint = joint;
        connection = connection;
        first_response = new_response;
      } in
      let id = length s.completions in
      record s {
        completions = s.completions ++ c ∷ [];
        pending = posted monitor id ∷ posted scraper id ∷ s.pending;
      }
