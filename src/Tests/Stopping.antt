-- ===== src/Tests/Stopping.antt =====
-- The theorem on `onStop`, for a monitor whose socket is dead.
use kekmonitors_cpp.Prelude.{String, Bool, false, []}
use kekmonitors_cpp.Core.Codes.{monitor}
use kekmonitors_cpp.Msg.Cmd.{Cmd}
use kekmonitors_cpp.Moman.State.{direct}
use kekmonitors_cpp.Moman.Stop.{on_stop}
use kekmonitors_cpp.Moman.StopOutcomes.{StopResult, on_stop-StopResult}
use kekmonitors_cpp.Tests.SampleJson.{SampleJson, object, field, text, end, sample_json}
use kekmonitors_cpp.Tests.SampleBimap.{Pairs, sample_bimap}
use kekmonitors_cpp.Tests.SampleShop.{shop_system}

abbrev no_errors : Pairs
no_errors = []

abbrev stop_shop : Cmd SampleJson
stop_shop = record { cmd = 21; payload = object (field "name" (text "shop") end) }

abbrev dead : String → Bool
dead path = false

on_stop-StopResult_example :
    StopResult monitor stop_shop 4 dead shop_system
      (on_stop no_errors monitor stop_shop (direct 4) dead shop_system)
on_stop-StopResult_example = on_stop-StopResult no_errors monitor stop_shop 4 dead shop_system
