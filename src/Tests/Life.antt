-- ===== src/Tests/Life.antt =====
-- The theorems on the life of a stored monitor, where a client adds one.
use kekmonitors_cpp.Prelude.{◌≡◌, ◌⊎◌, refl, none, some, find}
use kekmonitors_cpp.Core.Codes.{success, monitor}
use kekmonitors_cpp.Moman.State.{Process, stored}
use kekmonitors_cpp.Moman.Loop.{receives}
use kekmonitors_cpp.Moman.Life.Rounds.{LifeOf, process_of, handle-LifeOf, process-started}
use kekmonitors_cpp.Tests.SampleStart.{sample_start}
use kekmonitors_cpp.Tests.SampleAdded.{
  no_errors, adding_world, add_shop, added_system, reading_system, handle-add_shop,
  Reach-init-reading,
}
use kekmonitors_cpp.Tests.SampleJson.{sample_json}
use kekmonitors_cpp.Tests.SampleBimap.{sample_bimap}

abbrev shop_process : Process
shop_process = record { class_name = "shop"; pid = 78; creation = 2000 }

handle-LifeOf_example :
    LifeOf
      (receives 0 success add_shop)
      "shop"
      (find "shop" (stored monitor reading_system))
      (find "shop" (stored monitor added_system))
handle-LifeOf_example =
    handle-LifeOf no_errors sample_start Reach-init-reading adding_world
      (receives 0 success add_shop) tt handle-add_shop monitor "shop"

process-started_example :
    (process_of (find "shop" (stored monitor reading_system)) ≡ some shop_process)
    ⊎ (find "shop" (stored monitor reading_system) ≡ none)
unfolding find
process-started_example =
    process-started no_errors sample_start Reach-init-reading adding_world
      (receives 0 success add_shop) tt handle-add_shop monitor "shop" shop_process refl
