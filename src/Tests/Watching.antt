-- ===== src/Tests/Watching.antt =====
-- The theorem on the watcher, where a folder and a file of the configuration appear and the file goes.
use kekmonitors_cpp.Prelude.{true, some, List, [], ◌∷◌}
use kekmonitors_cpp.Moman.State.{System, empty_system}
use kekmonitors_cpp.Moman.Watcher.{InotifyEvent}
use kekmonitors_cpp.Tests.SampleStart.{start_watches}
use kekmonitors_cpp.Tests.SampleJson.{SampleJson, sample_json}

abbrev config_events : List InotifyEvent
config_events =
    record { got_event = true; name = "monitors"; mask = 0x40000100; watch = some "/home/u/config" }
    ∷ record {
      got_event = true;
      name = "webhooks.json";
      mask = 0x100;
      watch = some "/home/u/config/monitors";
    }
    ∷ record {
      got_event = true;
      name = "webhooks.json";
      mask = 0x200;
      watch = some "/home/u/config/monitors";
    }
    ∷ []

abbrev watching_system : System SampleJson
watching_system = record empty_system { watches = start_watches }
