-- ===== src/Tests/SampleStart.antt =====
-- A manager that starts with no configuration files and no sockets.
use kekmonitors_cpp.Prelude.{true, false, some, List, [], ◌∷◌}
use kekmonitors_cpp.Moman.State.{Watch}
use kekmonitors_cpp.Moman.Watcher.{WatcherWorld, InotifyEvent}
use kekmonitors_cpp.Moman.Start.{StartWorld}
use kekmonitors_cpp.Tests.SampleJson.{SampleJson, number, object, field, end}

abbrev pub sample_start : StartWorld
sample_start = record {
  entries = [];
  connects = λ path. false;
  socket_path = "/tmp";
  kek_dir = "/home/u";
  types = record { is_directory = λ path. false; is_regular_file = λ path. false };
}

abbrev pub start_watches : List Watch
start_watches =
    record { path = "/tmp"; mask = 0x300 } ∷ record { path = "/home/u/config"; mask = 0x300 } ∷ []

abbrev pub sample_watcher : WatcherWorld SampleJson
sample_watcher = record {
  socket_path = "/tmp";
  is_socket = λ path. true;
  connects = λ path. false;
  content = λ path. some (object (field "shop" (number 5) end));
  adds = λ path. true;
  removes = λ path. true;
}

abbrev pub socket_created : InotifyEvent
socket_created = record {
  got_event = true;
  name = "Monitor.shop";
  mask = 0x100;
  watch = some "/tmp";
}
