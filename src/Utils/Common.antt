-- ===== src/Utils/Common.antt =====
-- `makeCommonResponse` of src/lib/utils.cpp: one response for two.
use Prim.Native.String.{◌++◌}
use kekmonitors_cpp.Prelude.{String, Bool, not, ◌||◌, List, [], ◌∷◌, ◌==◌, str_eq, if◌then◌else◌}
use kekmonitors_cpp.Prelude.Outcome.{Try, returns, raises}
use kekmonitors_cpp.Core.Bimap.{BimapApi}
use kekmonitors_cpp.Core.Codes.{Errors, error_type}
use kekmonitors_cpp.Core.Names.{error_to_string}
use kekmonitors_cpp.Json.{JsonApi}
use kekmonitors_cpp.Msg.Response.{Response, ok_response}

-- `if (response.error())`
abbrev pub failed : {Json : Type 0} → Response Json → Bool
failed r = not (r.error == 0)

module _ {Json M : Type 0} ⦃J : JsonApi Json⦄ ⦃b : BimapApi M⦄ (errors : M) where
  -- What the loop adds to `info` for one response whose error has a name.
  info_part : Response Json → String → String
  info_part r name = if str_eq r.info "" then name ++ "; " else name ++ (": " ++ (r.info ++ " "))

  -- The loop over the responses; a response with an error that has no name stops it.
  unfoldable pub common_info : List (Response Json) → String → Try String
  unfolding info_part
  common_info [] info = returns info
  common_info (r ∷ rest) info =
      if failed r
      then (elim (error_to_string errors r.error) [
        | raises e ↦ raises e
        | returns name ↦ common_info rest (info ++ info_part r name)
      ])
      else common_info rest info

  unfoldable pub make_common_response : Response Json → Response Json → Errors → Try (Response Json)
  unfolding common_info ok_response
  make_common_response first second common_error =
      if failed first || failed second
      then (elim (common_info (first ∷ second ∷ []) "") [
        | raises e ↦ raises e
        | returns info ↦
            returns (record ok_response { error = error_type common_error; info = info })
      ])
      else returns ok_response
