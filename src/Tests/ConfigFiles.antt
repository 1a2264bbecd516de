-- ===== src/Tests/ConfigFiles.antt =====
-- The theorems on configuration files, at concrete inputs.
use Prim.Native.String.{◌++◌}
use mathlib.Core.List.{Memᴰ}
use kekmonitors_cpp.Prelude.{◌≡◌, ◌↔◌, refl, none, some, List, [], ◌∷◌}
use kekmonitors_cpp.Core.Codes.{monitor}
use kekmonitors_cpp.Text.{rfind}
use kekmonitors_cpp.Moman.State.{Sending}
use kekmonitors_cpp.Moman.Configs.{config_sub_dir, config_command, parse_and_send_configs}
use kekmonitors_cpp.Moman.ConfigPath.{config_sub_dir_outside}
use kekmonitors_cpp.Moman.ConfigSends.{webhooks, IsDue, parse_and_send_configs_lem}
use kekmonitors_cpp.Tests.SampleShop.{shop_system}
use kekmonitors_cpp.Tests.SampleJson.{SampleJson, number, object, field, end, sample_json}

abbrev shop_config : SampleJson
shop_config = object (field "shop" (number 5) end)

abbrev ping_sending : Sending SampleJson
ping_sending = record {
  kind = monitor;
  class_name = "shop";
  endpoint = "/tmp/Monitor.shop";
  cmd = record { cmd = 1; payload = number 5 };
}

config_sub_dir_outside_example : config_sub_dir ("monitors" ++ ("/" ++ "webhooks.json")) ≡ none
unfolding rfind
config_sub_dir_outside_example = config_sub_dir_outside "monitors" "webhooks.json" refl refl

parse_and_send_configs_lem_example :
    (l : List (Sending SampleJson)) × (parse_and_send_configs
        (some shop_config)
        ("/home/u" ++ ("/" ++ ("monitors" ++ ("/" ++ "webhooks.json"))))
        "webhooks.json"
        shop_system
      ≡ some l)
    × ((x : Sending SampleJson)
        → Memᴰ x l ↔ IsDue webhooks "monitors" (("shop", number 5) ∷ []) shop_system x)
unfolding rfind config_command
parse_and_send_configs_lem_example =
    parse_and_send_configs_lem shop_config "/home/u" "monitors" webhooks shop_system refl refl refl
