-- ===== src/Tests/SampleShop.antt =====
-- A manager with one monitor.
use kekmonitors_cpp.Prelude.{true, false, none, some, [], ◌∷◌}
use kekmonitors_cpp.Moman.State.{StoredObject, System}
use kekmonitors_cpp.Tests.SampleJson.{SampleJson}

-- A monitor that runs and has a socket.
abbrev pub shop_object : StoredObject
shop_object = record {
  process = some (record { class_name = "shop"; pid = 77; creation = 1000 });
  endpoint = some "/tmp/Monitor.shop";
  on_add_timer = none;
  class_name = "shop";
  is_being_added = false;
  is_being_stopped = false;
  confirm_added = false;
}

abbrev pub shop_system : System SampleJson
shop_system = record {
  monitors = ("shop", shop_object) ∷ [];
  scrapers = [];
  completions = [];
  pending = [];
  replies = [];
  next_timer = 1;
  cancelled = [];
  server = record { is_open = true; accepting = none; reading = []; next_connection = 0 };
  watching = true;
  watches = [];
  sendings = [];
}
