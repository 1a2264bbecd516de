-- ===== src/Moman/ConfigSends.antt =====
-- To which processes a changed configuration file is sent.
use Prim.Native.String.{◌++◌}
use mathlib.Core.List.{Memᴰ}
use mathlib.Core.List.Memᴰ
use kekmonitors_cpp.Prelude.{
  String, ◌≡◌, ◌≢◌, ◌↔◌, ◌⊎◌, sym, ◌∙◌, eq_iff, if◌then◌else◌, inl, inr, refl, true, false, Option,
  none, some, List, [], arith, str_eq, Bool-cases, Option-cases, subst,
}
use kekmonitors_cpp.Core.Codes.{
  Commands, CommandType, command_type, ping, MonitorOrScraper, monitor, scraper,
}
use kekmonitors_cpp.Json.{JsonApi}
use kekmonitors_cpp.Msg.Cmd.{new_cmd}
use kekmonitors_cpp.Text.{rfind}
use kekmonitors_cpp.Moman.State.{Sending, System}
use kekmonitors_cpp.Moman.Configs.{
  is_sent_to, config_sub_dir, config_command, send_configs, parse_and_send_configs,
}
use kekmonitors_cpp.Moman.ConfigPath.{config_sub_dir_lem}
use kekmonitors_cpp.Moman.ConfigDue.{IsRecipient, IsCovered, send_configs-to, send_configs-from}

-- The four files of a configuration folder.
pub data ConfigFile : Type 0 where
  webhooks whitelists blacklists configs : ConfigFile

abbrev pub file_name : ConfigFile → String
file_name webhooks = "webhooks.json"
file_name whitelists = "whitelists.json"
file_name blacklists = "blacklists.json"
file_name configs = "configs.json"

-- The numbers of the `SET_COMMON_` and the `SET_SPECIFIC_` commands.
abbrev common_code : ConfigFile → CommandType
common_code webhooks = 15
common_code whitelists = 17
common_code blacklists = 16
common_code configs = 14

abbrev specific_code : ConfigFile → CommandType
specific_code webhooks = 11
specific_code whitelists = 13
specific_code blacklists = 12
specific_code configs = 10

-- The folder "common" is for both kinds, each of the two others for its own.
abbrev IsFor : MonitorOrScraper → String → Type 0
IsFor monitor sub_dir = (sub_dir ≡ "common") ⊎ (sub_dir ≡ "monitors")
IsFor scraper sub_dir = (sub_dir ≡ "common") ⊎ (sub_dir ≡ "scrapers")

-- Whether a command has the number for the file in the folder.
abbrev IsCode : ConfigFile → String → CommandType → Type 0
IsCode f sub_dir code =
    (sub_dir ≡ "common" → code ≡ common_code f) × (sub_dir ≢ "common" → code ≡ specific_code f)

is_sent_to-IsFor :
    (m : MonitorOrScraper) (sub_dir : String) → (is_sent_to m sub_dir ≡ true) ↔ IsFor m sub_dir
is_sent_to-IsFor monitor sub_dir =
    ground (arith, eq_iff sub_dir "common", eq_iff sub_dir "monitors")
is_sent_to-IsFor scraper sub_dir =
    ground (arith, eq_iff sub_dir "common", eq_iff sub_dir "scrapers")

code_for : ConfigFile → String → CommandType
code_for f sub_dir = if str_eq sub_dir "common" then common_code f else specific_code f

config_command-code_for :
    (f : ConfigFile) (sub_dir : String)
    → (c : Commands) × (config_command (file_name f) sub_dir ≡ some c)
      × (command_type c ≡ code_for f sub_dir)
unfolding config_command command_type code_for
config_command-code_for webhooks sub_dir = (_, refl, ground arith)
config_command-code_for whitelists sub_dir = (_, refl, ground arith)
config_command-code_for blacklists sub_dir = (_, refl, ground arith)
config_command-code_for configs sub_dir = (_, refl, ground arith)

IsCode-code_for :
    (f : ConfigFile) (sub_dir : String) (code : CommandType)
    → (code ≡ code_for f sub_dir) ↔ IsCode f sub_dir code
unfolding code_for
IsCode-code_for f sub_dir code = ground (arith, eq_iff sub_dir "common")

file_name-rfind : (f : ConfigFile) → rfind "/" (file_name f) ≡ none
unfolding rfind
file_name-rfind webhooks = refl
file_name-rfind whitelists = refl
file_name-rfind blacklists = refl
file_name-rfind configs = refl

module _ {Json : Type 0} where
  -- The file has the class name with the payload of the command, the command is the one for the file
  -- and its folder, the folder is for the kind, and the process runs and has the socket.
  abbrev pub IsDue :
      ConfigFile → String → List (String × Json) → System Json → Sending Json → Type 0
  IsDue f sub_dir items s x =
      Memᴰ (x.class_name, x.cmd.payload) items
      × IsCode f sub_dir x.cmd.cmd
      × IsFor x.kind sub_dir
      × IsRecipient x s

  IsCovered-IsDue :
      (f : ConfigFile) (sub_dir : String) (code : CommandType) (items : List (String × Json))
      (s : System Json) (x : Sending Json)
      → code ≡ code_for f sub_dir
      → IsCovered sub_dir code items s x ↔ IsDue f sub_dir items s x
  IsCovered-IsDue f sub_dir code items s x e =
      let for = is_sent_to-IsFor x.kind sub_dir in
      let coded = IsCode-code_for f sub_dir x.cmd.cmd in
      (
        λ (listed, is, allowed, recipient). (listed, coded.0 (is ∙ e), for.0 allowed, recipient),
        λ (listed, is, allowed, recipient). (listed, coded.1 is ∙ sym e, for.1 allowed, recipient),
      )

module _ {Json : Type 0} ⦃J : JsonApi Json⦄ where
  -- A changed configuration file that holds an object, is one of the four and lies in a folder is
  -- sent to exactly these: the running processes with a socket whose class name the file has and
  -- whose kind the folder is for, "common" for both, "monitors" for monitors and "scrapers" for
  -- scrapers; each with the number of the common command of the file if the folder is "common", and
  -- else of its specific command, and with what the file has for the class name.
  pub parse_and_send_configs_lem :
      (config : Json) (dir sub_dir : String) (f : ConfigFile) (s : System Json)
      → J.is_object config ≡ true
      → rfind "/" sub_dir ≡ none
      → str_eq sub_dir "" ≡ false
      → (l : List (Sending Json)) × (parse_and_send_configs
            (some config)
            (dir ++ ("/" ++ (sub_dir ++ ("/" ++ file_name f))))
            (file_name f)
            s
          ≡ some l)
        × ((x : Sending Json) → Memᴰ x l ↔ IsDue f sub_dir (J.items config) s x)
  unfolding parse_and_send_configs
  parse_and_send_configs_lem config dir sub_dir f s obj p named =
      let (c, known, is) = config_command-code_for f sub_dir in
      let covered = IsCovered-IsDue f sub_dir (command_type c) (J.items config) s in
      (
        send_configs sub_dir (command_type c) (J.items config) s,
        rw (obj, config_sub_dir_lem dir sub_dir (file_name f) p (file_name-rfind f))
            (rw (named, known) refl),
        λ x. (
          λ h. (covered x is).0 (send_configs-to sub_dir (command_type c) (J.items config) s x h),
          λ h. send_configs-from sub_dir (command_type c) (J.items config) s x ((covered x is).1 h),
        ),
      )

  -- Without a file's name, as it is called for a file that was modified, every command that
  -- `parseAndSendConfigs` sends is `PING`.
  pub parse_and_send_configs_unnamed :
      (config : Option Json) (path : String) (s : System Json) (l : List (Sending Json))
      (x : Sending Json)
      → parse_and_send_configs config path "" s ≡ some l
      → Memᴰ x l
      → x.cmd.cmd ≡ command_type ping
  unfolding parse_and_send_configs new_cmd config_command
  parse_and_send_configs_unnamed none path s l x h m =
      let nothing : l ≡ [] = ground arith in absurd (Memᴰ.not-nil (subst (Memᴰ x) nothing m))
  parse_and_send_configs_unnamed (some config) path s l x h m =
      elim (Bool-cases (J.is_object config)) [
        | inr other ↦
            let nothing : l ≡ [] = ground arith in absurd (Memᴰ.not-nil (subst (Memᴰ x) nothing m))
        | inl obj ↦ elim (Option-cases (config_sub_dir path)) [
          | inl outside ↦ absurd (ground arith)
          | inr (sub_dir, at) ↦ elim (Bool-cases (str_eq sub_dir "")) [
            | inl empty ↦
                let nothing : l ≡ [] = ground arith in
                absurd (Memᴰ.not-nil (subst (Memᴰ x) nothing m))
            | inr named ↦
                let sent : l ≡ send_configs sub_dir (command_type ping) (J.items config) s =
                  ground arith in
                (send_configs-to sub_dir (command_type ping) (J.items config) s x
                  (subst (Memᴰ x) sent m)).1
          ]
        ]
      ]
