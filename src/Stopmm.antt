-- ===== src/Stopmm.antt =====
-- src/bin/stopmm.cpp: the tool that stops the manager.
pub mod Stopped
use kekmonitors_cpp.Prelude.{ℕ, String, Bool, List, [], ◌∷◌, ◌==◌, if◌then◌else◌}
use kekmonitors_cpp.Prelude.Outcome.{Try, returns, raises}
use kekmonitors_cpp.Core.Bimap.{BimapApi}
use kekmonitors_cpp.Core.Codes.{command_type, mm_stop_monitor_manager, ErrorCode, is_error}
use kekmonitors_cpp.Core.Names.{error_to_string}
use kekmonitors_cpp.Json.{JsonApi}
use kekmonitors_cpp.Msg.Cmd.{Cmd, new_cmd}
use kekmonitors_cpp.Msg.Response.{Response}
use kekmonitors_cpp.Cli.{Ended, Line, error_line, info_line}

module _ {Json : Type 0} ⦃J : JsonApi Json⦄ where
  unfoldable pub stop_cmd : Cmd Json
  unfolding new_cmd command_type
  stop_cmd = record new_cmd { cmd = command_type mm_stop_monitor_manager }

module _ {Json M : Type 0} ⦃b : BimapApi M⦄ (errors : M) where
  -- The handler of `asyncReadResponse`: what it logs.
  unfoldable pub on_stop_response : Ended → Response Json → Try (List Line)
  unfolding is_error error_to_string
  on_stop_response ended resp =
      if is_error ended.error
      then returns (error_line ended.message ∷ [])
      else elim (error_to_string errors resp.error) [
        | raises e ↦ raises e
        | returns text ↦ returns (
            if resp.error == 0
            then info_line text ∷ []
            else error_line text ∷ error_line resp.info ∷ [])
      ]

  -- `main`: whether the manager's socket accepts, how the write ended, how the read ended, and what was
  -- read. It gives what is logged and the exit code.
  unfoldable pub stop_manager : Bool → Ended → Ended → Response Json → Try (List Line × ℕ)
  unfolding on_stop_response
  stop_manager connects written read resp =
      if connects
      then (if is_error written.error
          then returns (error_line written.message ∷ [], 0)
          else elim (on_stop_response read resp) [
            | raises e ↦ raises e
            | returns lines ↦ returns (lines, 0)
          ])
      else returns (error_line "Couldn't connect to socket" ∷ [], 1)
