-- ===== src/Connection/Arrival.antt =====
-- The arrival of a message that fits into the buffer.
use Prim.Native.String.{count, ◌++◌}
use kekmonitors_cpp.Prelude.{◌≤◌, ◌<◌, ◌-◌, String, ◌≡◌, refl, true, arith}
use kekmonitors_cpp.Core.Codes.{u32_mod, ErrorCode, success, is_error}
use kekmonitors_cpp.Json.{JsonApi, JsonText}
use kekmonitors_cpp.Msg.Cmd.{Cmd}
use kekmonitors_cpp.Msg.Cmd
use kekmonitors_cpp.Msg.Response.{Response}
use kekmonitors_cpp.Msg.Response
use kekmonitors_cpp.Msg.RoundTrip.{
  cmd-from_json-to_json, cmd-from_json-from_json_ec, response-from_json-to_json,
  response-from_json-from_json_ec,
}
use kekmonitors_cpp.Text.{pad}
use kekmonitors_cpp.Text.Laws.{take-all, drop-pad, count-pad}
use kekmonitors_cpp.Connection.{
  buffer_size, new_connection, fill, is_read, on_read_cmd, on_read_response, quick_write_cmd,
  answered,
}

buffer-fill :
    (s : String)
    → count s ≤ buffer_size
    → (fill s new_connection).buffer ≡ s ++ pad (buffer_size - count s)
unfolding fill new_connection
buffer-fill s h =
    rw (count-pad buffer_size, take-all buffer_size s h, drop-pad (count s) buffer_size) refl

module _ {Json : Type 0} ⦃J : JsonApi Json⦄ (T : JsonText Json) where
  -- A command whose text has at most 1024 bytes is what the handler of a new connection's
  -- `asyncReadCmd` hands on, with no error, whether the read ends with the full buffer or with the
  -- end of the stream.
  pub on_read_cmd-fill :
      (c : Cmd Json) (err : ErrorCode)
      → is_read err ≡ true
      → c.cmd < u32_mod
      → T.IsText (Cmd.to_json c)
      → count (Cmd.to_string T c) ≤ buffer_size
      → on_read_cmd T err (fill (Cmd.to_string T c) new_connection) ≡ (c, success)
  unfolding on_read_cmd Cmd.from_string_ec Cmd.to_string
  on_read_cmd-fill c err r h w fits = ground (
    arith,
    buffer-fill (T.dump (Cmd.to_json c)) fits,
    T.parse-padded (Cmd.to_json c) (buffer_size - count (T.dump (Cmd.to_json c))) w,
    cmd-from_json-to_json c h,
    cmd-from_json-from_json_ec (Cmd.to_json c) success,
  )

  on_read_response-fill :
      (resp : Response Json) (err : ErrorCode)
      → is_read err ≡ true
      → resp.error < u32_mod
      → T.IsText (Response.to_json resp)
      → count (Response.to_string T resp) ≤ buffer_size
      → on_read_response T err (fill (Response.to_string T resp) new_connection) ≡ (resp, success)
  unfolding on_read_response Response.from_string_ec Response.to_string
  on_read_response-fill resp err r h w fits = ground (
    arith,
    buffer-fill (T.dump (Response.to_json resp)) fits,
    T.parse-padded (Response.to_json resp) (buffer_size - count (T.dump (Response.to_json resp))) w,
    response-from_json-to_json resp h,
    response-from_json-from_json_ec (Response.to_json resp) success,
  )

  -- If the command is written and the other side answers with a response whose text has at most
  -- 1024 bytes, `quickWriteCmd` calls its callback with that response.
  pub quick_write_cmd-answered :
      (resp : Response Json) (err : ErrorCode)
      → is_read err ≡ true
      → resp.error < u32_mod
      → T.IsText (Response.to_json resp)
      → count (Response.to_string T resp) ≤ buffer_size
      → quick_write_cmd T success err (Response.to_string T resp) new_connection ≡ answered resp
  unfolding quick_write_cmd is_error
  quick_write_cmd-answered resp err r h w fits = rw (on_read_response-fill resp err r h w fits) refl
