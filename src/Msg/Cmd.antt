-- ===== src/Msg/Cmd.antt =====
-- `class Cmd` of include/kekmonitors/msg.hpp. The setters and getters are the record's fields.
use kekmonitors_cpp.Prelude.{String, Option, none, some, if◌then◌else◌}
use kekmonitors_cpp.Prelude.Outcome.{Try, returns, raises, invalid_argument, json_exception}
use kekmonitors_cpp.Core.Codes.{CommandType, command_type, ping, ErrorCode}
use kekmonitors_cpp.Core.Codes
use kekmonitors_cpp.Json.{JsonApi, JsonText}

pub record Cmd (Json : Type 0) : Type 0 where
  pub cmd : CommandType
  pub payload : Json

-- What a read leaves in a member: the value read, or the old one if the read throws.
abbrev pub or_keep {ℓ} : {A : Type ℓ} → Option A → A → A
or_keep none old = old
or_keep (some new) old = new

-- `a` and then the conversion of its result.
abbrev pub then_convert {ℓ κ} : {A : Type ℓ} {B : Type κ} → Option A → (A → Option B) → Option B
then_convert none f = none
then_convert (some a) f = f a

module _ {Json : Type 0} ⦃J : JsonApi Json⦄ where
  -- `Cmd()`
  unfoldable pub new_cmd : Cmd Json
  unfolding command_type
  new_cmd = record { cmd = command_type ping; payload = J.null }

  -- `obj.at("_Cmd__cmd")` as a `CommandType`.
  unfoldable pub read_cmd : Json → Option CommandType
  read_cmd obj = then_convert (J.at obj "_Cmd__cmd") J.as_u32

  read_payload : Json → Cmd Json → Cmd Json
  read_payload obj cmd = record cmd { payload = or_keep (J.at obj "_Cmd__payload") cmd.payload }

  -- `fromJson(obj)`
  unfoldable pub from_json : Json → Try (Cmd Json)
  unfolding new_cmd read_cmd read_payload
  from_json obj = elim (read_cmd obj) [
    | none ↦ raises invalid_argument
    | some code ↦ returns (read_payload obj (record new_cmd { cmd = code }))
  ]

  -- `fromJson(obj, ec)`: the command, and `ec` as it is left.
  unfoldable pub from_json_ec : Json → ErrorCode → Cmd Json × ErrorCode
  unfolding new_cmd read_cmd read_payload
  from_json_ec obj ec = elim (read_cmd obj) [
    | none ↦ (read_payload obj new_cmd, Codes.invalid_argument)
    | some code ↦ (read_payload obj (record new_cmd { cmd = code }), ec)
  ]

  unfoldable pub to_json : Cmd Json → Json
  to_json c =
      let j = J.put J.null "_Cmd__cmd" (J.of_u32 c.cmd) in
      if J.is_null c.payload then j else J.put j "_Cmd__payload" c.payload

  module _ (T : JsonText Json) where
    -- `fromString(str)`: an exception of `parse` passes through.
    unfoldable pub from_string : String → Try (Cmd Json)
    unfolding from_json
    from_string str = elim (T.parse str) [ none ↦ raises json_exception | some j ↦ from_json j ]

    unfoldable pub from_string_ec : String → ErrorCode → Cmd Json × ErrorCode
    unfolding from_json_ec new_cmd
    from_string_ec str ec = elim (T.parse str) [
      | none ↦ (new_cmd, Codes.invalid_argument)
      | some j ↦ from_json_ec j ec
    ]

    unfoldable pub to_string : Cmd Json → String
    unfolding to_json
    to_string c = T.dump (to_json c)
