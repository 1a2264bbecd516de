-- ===== src/Tests/Timeouts.antt =====
-- The theorems on the time-out of a connection, where the text of a command arrives.
use kekmonitors_cpp.Prelude.{true, ◌≡◌, ◌≤◌, ◌⊎◌, refl, false, length, ◌∷◌, []}
use kekmonitors_cpp.Prelude.Outcome.{done, throws, system_error}
use kekmonitors_cpp.Core.Codes.{ErrorCode, success, eof, invalid_argument}
use kekmonitors_cpp.Msg.Cmd.{Cmd}
use kekmonitors_cpp.Connection.{Connection, new_connection, fill, on_read_cmd}
use kekmonitors_cpp.Connection.Link.{
  Link, expired, ended, async_read, on_read_end, on_written, LinkStep, arrives, hands_on, LinkSteps,
  start, after,
}
use kekmonitors_cpp.Connection.Timeouts.{
  is_own, async_read-ends, on_written_in_time, on_written_late,
}
use kekmonitors_cpp.Tests.SampleJson.{SampleJson, sample_json, sample_text, ping_text}

abbrev sample_hand : ErrorCode → Connection → Cmd SampleJson × ErrorCode
sample_hand = on_read_cmd sample_text

abbrev arrived : Link (Cmd SampleJson)
arrived = record async_read { read = ended eof ping_text }

steps_to_arrived : LinkSteps sample_hand async_read 1 arrived
unfolding async_read
steps_to_arrived = after start (arrives eof ping_text refl)

abbrev answered_link : Link (Cmd SampleJson)
answered_link = on_read_end sample_hand eof ping_text arrived

async_read-ends_example :
    (2 ≤ 4)
    × (length answered_link.called ≤ 1)
    × (((m : Link (Cmd SampleJson)) × (st : LinkStep sample_hand answered_link m) × (is_own
              sample_hand st
            ≡ true))
        ⊎ (length answered_link.called ≡ 1))
async_read-ends_example =
    async_read-ends sample_hand 2 answered_link
      (after steps_to_arrived (hands_on eof ping_text refl))

on_written_in_time_example :
    on_written success answered_link ≡ done (record answered_link { sends = false }, success)
unfolding async_read
on_written_in_time_example =
    on_written_in_time sample_hand steps_to_arrived eof ping_text refl refl refl start success

-- The text arrives when the timer has expired.
abbrev late : Link (Cmd SampleJson)
late = record async_read { wait = expired; read = ended eof ping_text }

on_written_late_example :
    (handed : Link (Cmd SampleJson)) × (closed : Link (Cmd SampleJson)) × LinkStep sample_hand late
      handed
    × LinkStep sample_hand handed closed
    × (handed.called ≡ sample_hand eof (fill ping_text new_connection) ∷ [])
    × (on_written invalid_argument closed ≡ throws system_error (closed, invalid_argument))
unfolding async_read
on_written_late_example = on_written_late sample_hand late eof ping_text invalid_argument refl refl
