-- ===== src/Connection.antt =====
-- src/lib/connection.cpp: `class Connection`, one reading or writing of a message. A text stands for
-- its bytes in UTF-8, a character for a byte.
pub mod Arrival
pub mod Link
pub mod Timeouts
use Prim.Native.String.{count, ◌++◌}
use kekmonitors_cpp.Prelude.{ℕ, String, Bool, true, false, ◌||◌, if◌then◌else◌}
use kekmonitors_cpp.Core.Codes.{ErrorCode, success, eof, is_error}
use kekmonitors_cpp.Json.{JsonApi, JsonText}
use kekmonitors_cpp.Msg.Cmd.{Cmd, new_cmd}
use kekmonitors_cpp.Msg.Cmd
use kekmonitors_cpp.Msg.Response.{Response, new_response}
use kekmonitors_cpp.Msg.Response
use kekmonitors_cpp.Text.{take, drop, pad}

-- The bytes of `m_buffer`, and whether `p_endpoint` is open.
pub record Connection : Type 0 where
  pub buffer : String
  pub is_open : Bool

abbrev pub buffer_size : ℕ
buffer_size = 1024

unfoldable pub new_connection : Connection
unfolding pad
new_connection = record { buffer = pad buffer_size; is_open = true }

-- `onTimeout`: the end of the wait on `m_timeout`.
unfoldable pub on_timeout : ErrorCode → Connection → Connection
unfolding is_error
on_timeout err c = if is_error err then c else record c { is_open = false }

-- `async_read` into `buffer(m_buffer)`: what arrives overwrites the first bytes, as far as they go.
unfoldable pub fill : String → Connection → Connection
unfolding take drop
fill received c = record c {
  buffer = take (count c.buffer) received ++ drop (count received) c.buffer;
}

abbrev pub is_eof : ErrorCode → Bool
is_eof eof = true
is_eof _ = false

abbrev pub is_read : ErrorCode → Bool
is_read success = true
is_read err = is_eof err

-- What `quickWriteCmd` calls: its callback with a response, or `on_any_error` with an error.
pub data QuickResult (Json : Type 0) : Type 0 where
  answered : Response Json → QuickResult Json
  failed_with : ErrorCode → QuickResult Json

module _ {Json : Type 0} ⦃J : JsonApi Json⦄ (T : JsonText Json) where
  -- The handler of `asyncReadCmd`: the command and the error that its callback is called with.
  unfoldable pub on_read_cmd : ErrorCode → Connection → Cmd Json × ErrorCode
  unfolding new_cmd Cmd.from_string_ec
  on_read_cmd err c = if is_read err then Cmd.from_string_ec T c.buffer success else (new_cmd, err)

  -- The handler of `asyncReadResponse`.
  unfoldable pub on_read_response : ErrorCode → Connection → Response Json × ErrorCode
  unfolding new_response Response.from_string_ec
  on_read_response err c =
      if is_read err then Response.from_string_ec T c.buffer success else (new_response, err)

  -- The two handlers of `quickWriteCmd`, one after the other: how the write ended, how the read
  -- ended, and what arrived.
  unfoldable pub quick_write_cmd : ErrorCode → ErrorCode → String → Connection → QuickResult Json
  unfolding is_error fill on_read_response
  quick_write_cmd written err received c =
      if is_error written
      then failed_with written
      else let (resp, errc) = on_read_response err (fill received c) in
        if is_error errc then failed_with errc else answered resp
