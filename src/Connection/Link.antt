-- ===== src/Connection/Link.antt =====
-- The reading of a message with its time-out, and the end of a write: src/lib/connection.cpp as a
-- machine whose steps are what boost::asio documents and the handlers that it calls.
use kekmonitors_cpp.Prelude.{ℕ, suc, String, ◌≡◌, Bool, true, false, List, [], ◌∷◌, if◌then◌else◌}
use kekmonitors_cpp.Prelude.Outcome.{Outcome, done, throws, system_error}
use kekmonitors_cpp.Core.Codes.{ErrorCode, success, operation_aborted}
use kekmonitors_cpp.Json.{JsonApi, JsonText}
use kekmonitors_cpp.Msg.Cmd.{Cmd}
use kekmonitors_cpp.Msg.Response.{Response}
use kekmonitors_cpp.Connection.{
  Connection, new_connection, on_timeout, fill, is_read, on_read_cmd, on_read_response,
}

-- The wait on `m_timeout`: not started or done with, under way, or ended with its handler still to
-- be called, because the timer expired or because it was cancelled.
pub data Wait : Type 0 where
  no_wait waiting expired cancelled : Wait

-- The `async_read`: under way, ended with its handler still to be called, or done with.
pub data Read : Type 0 where
  reading : Read
  ended : ErrorCode → String → Read
  handled : Read

-- A connection that `asyncReadCmd` or `asyncReadResponse` was called on, with whether its sending side is open, and what its
-- callback was called with, newest first.
pub record Link (A : Type 0) : Type 0 where
  pub connection : Connection
  pub wait : Wait
  pub read : Read
  pub sends : Bool
  pub called : List (A × ErrorCode)

-- `m_timeout.cancel()`: a wait that has ended cannot be cancelled any more.
unfoldable pub cancel : Wait → Wait
cancel waiting = cancelled
cancel w = w

-- `close()` ends a read that is under way.
unfoldable pub close_read : Read → Read
close_read reading = ended operation_aborted ""
close_read r = r

module _ {A : Type 0} where
  -- The start of `asyncReadCmd` or `asyncReadResponse` on a new connection.
  unfoldable pub async_read : Link A
  unfolding new_connection
  async_read = record {
    connection = new_connection;
    wait = waiting;
    read = reading;
    sends = true;
    called = [];
  }

  -- The handler of the wait.
  unfoldable pub on_wait_end : ErrorCode → Link A → Link A
  unfolding on_timeout close_read
  on_wait_end err l =
      let c = on_timeout err l.connection in
      record l {
        connection = c;
        wait = no_wait;
        read = if c.is_open then l.read else close_read l.read;
      }

  -- The handler that `asyncWriteResponse` and `asyncWriteCmd` give to `async_write`: `shutdown`
  -- throws where the socket is closed; the result has what the callback is called with.
  unfoldable pub on_written : ErrorCode → Link A → Outcome (Link A × ErrorCode)
  on_written err l =
      if l.connection.is_open
      then done (record l { sends = false }, err)
      else throws system_error (l, err)

  unfoldable pub on_response_written : ErrorCode → Link A → Outcome (Link A × ErrorCode)
  unfolding on_written
  on_response_written = on_written

  unfoldable pub on_cmd_written : ErrorCode → Link A → Outcome (Link A × ErrorCode)
  unfolding on_written
  on_cmd_written = on_written

-- `hand` is the message and the error that the callback is called with.
module _ {A : Type 0} (hand : ErrorCode → Connection → A × ErrorCode) where
  -- The handler of the read: what arrived is in the buffer.
  unfoldable pub on_read_end : ErrorCode → String → Link A → Link A
  unfolding fill cancel
  on_read_end err text l =
      let c = fill text l.connection in
      record l {
        connection = c;
        wait = if is_read err then cancel l.wait else l.wait;
        read = handled;
        called = hand err c ∷ l.called;
      }

  -- What can happen next.
  pub data LinkStep (l : Link A) : Link A → Type 0 where
    expires : l.wait ≡ waiting → LinkStep l (record l { wait = expired })
    arrives :
        (err : ErrorCode) (text : String)
        → l.read ≡ reading
        → LinkStep l (record l { read = ended err text })
    times_out : l.wait ≡ expired → LinkStep l (on_wait_end success l)
    gives_over : l.wait ≡ cancelled → LinkStep l (on_wait_end operation_aborted l)
    hands_on :
        (err : ErrorCode) (text : String)
        → l.read ≡ ended err text
        → LinkStep l (on_read_end err text l)

  -- A history of so many steps.
  pub data LinkSteps (l : Link A) : ℕ → Link A → Type 0 where
    start : LinkSteps l 0 l
    after : {n : ℕ} {m o : Link A} → LinkSteps l n m → LinkStep m o → LinkSteps l (suc n) o

module _ {Json : Type 0} ⦃J : JsonApi Json⦄ (T : JsonText Json) where
  -- The handlers that `asyncReadCmd` and `asyncReadResponse` give to `async_read`.
  unfoldable pub on_cmd_read : ErrorCode → String → Link (Cmd Json) → Link (Cmd Json)
  unfolding on_read_end
  on_cmd_read = on_read_end (on_read_cmd T)

  unfoldable pub on_response_read : ErrorCode → String → Link (Response Json) → Link (Response Json)
  unfolding on_read_end
  on_response_read = on_read_end (on_read_response T)
