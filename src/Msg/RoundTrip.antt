-- ===== src/Msg/RoundTrip.antt =====
-- The JSON form of a message and its two readers, one against the other.
use kekmonitors_cpp.Prelude.{
  String, ◌<◌, ◌≡◌, not, ◌&&◌, none, some, if◌then◌else◌, arith, ◌⊎◌, eq_iff, str_eq,
}
use kekmonitors_cpp.Prelude.Outcome.{returns, raises, invalid_argument}
use kekmonitors_cpp.Core.Codes.{u32_mod, ErrorCode}
use kekmonitors_cpp.Core.Codes
use kekmonitors_cpp.Json.{JsonApi, JsonText}
use kekmonitors_cpp.Msg.Cmd.{Cmd}
use kekmonitors_cpp.Msg.Cmd
use kekmonitors_cpp.Msg.Response.{Response}
use kekmonitors_cpp.Msg.Response

module _ {Json : Type 0} ⦃J : JsonApi Json⦄ where
  at-to_json_cmd : (c : Cmd Json) → J.at (Cmd.to_json c) "_Cmd__cmd" ≡ some (J.of_u32 c.cmd)
  unfolding Cmd.to_json
  at-to_json_cmd c =
      let j = J.put J.null "_Cmd__cmd" (J.of_u32 c.cmd) in
      ground (
        arith,
        J.is_null-null,
        J.at-put J.null "_Cmd__cmd" (J.of_u32 c.cmd) "_Cmd__cmd",
        J.is_object-put J.null "_Cmd__cmd" (J.of_u32 c.cmd),
        J.at-put j "_Cmd__payload" c.payload "_Cmd__cmd",
      )

  at-to_json_payload :
      (c : Cmd Json)
      → J.at (Cmd.to_json c) "_Cmd__payload"
        ≡ (if J.is_null c.payload then none else some c.payload)
  unfolding Cmd.to_json
  at-to_json_payload c =
      let j = J.put J.null "_Cmd__cmd" (J.of_u32 c.cmd) in
      ground (
        arith,
        J.is_null-null,
        J.at-null "_Cmd__payload",
        J.at-put J.null "_Cmd__cmd" (J.of_u32 c.cmd) "_Cmd__payload",
        J.is_object-put J.null "_Cmd__cmd" (J.of_u32 c.cmd),
        J.at-put j "_Cmd__payload" c.payload "_Cmd__payload",
      )

  -- A command whose code fits its type is read back from its JSON form, with its payload.
  pub cmd-from_json-to_json :
      (c : Cmd Json) → c.cmd < u32_mod → Cmd.from_json (Cmd.to_json c) ≡ returns c
  unfolding Cmd.from_json Cmd.read_cmd
  cmd-from_json-to_json c h =
      ground
        (arith, at-to_json_cmd c, at-to_json_payload c, J.as_u32-of_u32 c.cmd, J.eq-null c.payload)

  -- Either reader of a command fails exactly where the other does, and they read the same command;
  -- the one with an error code leaves the code as it was where it succeeds.
  pub cmd-from_json-from_json_ec :
      (obj : Json) (ec : ErrorCode)
      → ((Cmd.from_json obj ≡ raises invalid_argument)
          × ((Cmd.from_json_ec obj ec).1 ≡ Codes.invalid_argument))
        ⊎ ((Cmd.from_json obj ≡ returns (Cmd.from_json_ec obj ec).0)
            × ((Cmd.from_json_ec obj ec).1 ≡ ec))
  unfolding Cmd.from_json Cmd.from_json_ec
  cmd-from_json-from_json_ec obj ec = ground arith

  -- The JSON form of a response, read at any key.
  at-to_json_response :
      (r : Response Json) (l : String)
      → J.at (Response.to_json r) l ≡ (
          if not (J.is_null r.payload) && str_eq "_Response__payload" l
          then some r.payload
          else if not (str_eq r.info "") && str_eq "_Response__info" l
          then some (J.of_string r.info)
          else if str_eq "_Response__error" l
          then some (J.of_u32 r.error)
          else none)
  unfolding Response.to_json
  at-to_json_response r l =
      let j = J.put J.null "_Response__error" (J.of_u32 r.error) in
      let k = J.put j "_Response__info" (J.of_string r.info) in
      ground (
        arith,
        J.is_null-null,
        J.at-null l,
        J.at-put J.null "_Response__error" (J.of_u32 r.error) l,
        J.is_object-put J.null "_Response__error" (J.of_u32 r.error),
        J.at-put j "_Response__info" (J.of_string r.info) l,
        J.is_object-put j "_Response__info" (J.of_string r.info),
        J.at-put j "_Response__payload" r.payload l,
        J.at-put k "_Response__payload" r.payload l,
      )

  -- A response whose code fits its type is read back from its JSON form, with its text and payload.
  pub response-from_json-to_json :
      (r : Response Json) → r.error < u32_mod → Response.from_json (Response.to_json r) ≡ returns r
  unfolding Response.from_json
  response-from_json-to_json r h = ground (
    arith,
    at-to_json_response r "_Response__error",
    at-to_json_response r "_Response__payload",
    at-to_json_response r "_Response__info",
    J.as_u32-of_u32 r.error,
    J.as_string-of_string r.info,
    J.eq-null r.payload,
    eq_iff r.info "",
  )

  -- Either reader of a response fails exactly where the other does, and they read the same
  -- response; the one with an error code leaves the code as it was where it succeeds.
  pub response-from_json-from_json_ec :
      (obj : Json) (ec : ErrorCode)
      → ((Response.from_json obj ≡ raises invalid_argument)
          × ((Response.from_json_ec obj ec).1 ≡ Codes.invalid_argument))
        ⊎ ((Response.from_json obj ≡ returns (Response.from_json_ec obj ec).0)
            × ((Response.from_json_ec obj ec).1 ≡ ec))
  unfolding Response.from_json Response.from_json_ec
  response-from_json-from_json_ec obj ec = ground arith

  module _ (T : JsonText Json) where
    -- A command that is sent as text is read as it was, by both readers, if its code fits its type
    -- and its JSON form can be written down as text.
    pub cmd-from_string-to_string :
        (c : Cmd Json) (ec : ErrorCode)
        → c.cmd < u32_mod
        → T.IsText (Cmd.to_json c)
        → (Cmd.from_string T (Cmd.to_string T c) ≡ returns c)
          × (Cmd.from_string_ec T (Cmd.to_string T c) ec ≡ (c, ec))
    unfolding Cmd.from_string Cmd.from_string_ec Cmd.to_string
    cmd-from_string-to_string c ec h w = ground (
      arith,
      T.parse-dump (Cmd.to_json c) w,
      cmd-from_json-to_json c h,
      cmd-from_json-from_json_ec (Cmd.to_json c) ec,
    )

    -- A response that is sent as text is read as it was, by both readers, if its code fits its type
    -- and its JSON form can be written down as text.
    pub response-from_string-to_string :
        (r : Response Json) (ec : ErrorCode)
        → r.error < u32_mod
        → T.IsText (Response.to_json r)
        → (Response.from_string T (Response.to_string T r) ≡ returns r)
          × (Response.from_string_ec T (Response.to_string T r) ec ≡ (r, ec))
    unfolding Response.from_string Response.from_string_ec Response.to_string
    response-from_string-to_string r ec h w = ground (
      arith,
      T.parse-dump (Response.to_json r) w,
      response-from_json-to_json r h,
      response-from_json-from_json_ec (Response.to_json r) ec,
    )
