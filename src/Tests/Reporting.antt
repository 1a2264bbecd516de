-- ===== src/Tests/Reporting.antt =====
-- The theorem on the status, for a monitor that was just added.
use kekmonitors_cpp.Prelude.{◌≡◌}
use kekmonitors_cpp.Prelude.Outcome.{done}
use kekmonitors_cpp.Core.Codes.{monitor}
use kekmonitors_cpp.Msg.Response.{Response}
use kekmonitors_cpp.Moman.State.{direct, stored}
use kekmonitors_cpp.Moman.Reply.{write_response}
use kekmonitors_cpp.Moman.Status.{on_get_status}
use kekmonitors_cpp.Moman.Reported.{Reports, on_get_status-Reports}
use kekmonitors_cpp.Tests.SampleJson.{SampleJson, sample_json}
use kekmonitors_cpp.Tests.SampleBimap.{sample_bimap}
use kekmonitors_cpp.Tests.SampleStart.{sample_start}
use kekmonitors_cpp.Tests.SampleAdded.{no_errors, added_system, Reach-init-added}

on_get_status-Reports_example :
    (r : Response SampleJson) × (on_get_status no_errors monitor (direct 1) added_system
      ≡ done (write_response 1 r added_system))
    × Reports (stored monitor added_system) r
on_get_status-Reports_example =
    on_get_status-Reports no_errors sample_start Reach-init-added monitor 1
