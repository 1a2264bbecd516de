-- ===== src/Msg/Response.antt =====
-- `class Response` of include/kekmonitors/msg.hpp. The setters and getters are the record's fields.
use kekmonitors_cpp.Prelude.{String, Option, none, some, if◌then◌else◌, str_eq}
use kekmonitors_cpp.Prelude.Outcome.{Try, returns, raises, invalid_argument, json_exception}
use kekmonitors_cpp.Core.Codes.{ErrorType, error_type, ok, other_error, ErrorCode}
use kekmonitors_cpp.Core.Codes
use kekmonitors_cpp.Json.{JsonApi, JsonText}
use kekmonitors_cpp.Msg.Cmd.{or_keep, then_convert}

pub record Response (Json : Type 0) : Type 0 where
  pub error : ErrorType
  pub info : String
  pub payload : Json

module _ {Json : Type 0} ⦃J : JsonApi Json⦄ where
  -- `Response()`
  unfoldable pub new_response : Response Json
  unfolding error_type
  new_response = record { error = error_type ok; info = ""; payload = J.null }

  -- `obj.at("_Response__error")` as an `ErrorType`.
  unfoldable pub read_error : Json → Option ErrorType
  read_error obj = then_convert (J.at obj "_Response__error") J.as_u32

  -- The reads of the payload and of the text behind it.
  read_rest : Json → Response Json → Response Json
  read_rest obj r = record r {
    payload = or_keep (J.at obj "_Response__payload") r.payload;
    info = or_keep (then_convert (J.at obj "_Response__info") J.as_string) r.info;
  }

  -- `fromJson(obj)`
  unfoldable pub from_json : Json → Try (Response Json)
  unfolding new_response read_error read_rest
  from_json obj = elim (read_error obj) [
    | none ↦ raises invalid_argument
    | some code ↦ returns (read_rest obj (record new_response { error = code }))
  ]

  -- `fromJson(obj, ec)`: the response, and `ec` as it is left.
  unfoldable pub from_json_ec : Json → ErrorCode → Response Json × ErrorCode
  unfolding new_response read_error read_rest
  from_json_ec obj ec = elim (read_error obj) [
    | none ↦ (read_rest obj new_response, Codes.invalid_argument)
    | some code ↦ (read_rest obj (record new_response { error = code }), ec)
  ]

  unfoldable pub to_json : Response Json → Json
  to_json r =
      let j = J.put J.null "_Response__error" (J.of_u32 r.error) in
      let k = if str_eq r.info "" then j else J.put j "_Response__info" (J.of_string r.info) in
      if J.is_null r.payload then k else J.put k "_Response__payload" r.payload

  unfoldable pub ok_response : Response Json
  unfolding new_response error_type
  ok_response = record new_response { error = error_type ok }

  unfoldable pub bad_response : Response Json
  unfolding new_response error_type
  bad_response = record new_response { error = error_type other_error }

  module _ (T : JsonText Json) where
    -- `fromString(str)`: an exception of `parse` passes through.
    unfoldable pub from_string : String → Try (Response Json)
    unfolding from_json
    from_string str = elim (T.parse str) [ none ↦ raises json_exception | some j ↦ from_json j ]

    unfoldable pub from_string_ec : String → ErrorCode → Response Json × ErrorCode
    unfolding from_json_ec new_response
    from_string_ec str ec = elim (T.parse str) [
      | none ↦ (new_response, Codes.invalid_argument)
      | some j ↦ from_json_ec j ec
    ]

    unfoldable pub to_string : Response Json → String
    unfolding to_json
    to_string r = T.dump (to_json r)
