-- ===== src/Server.antt =====
-- src/bin/moman/server.cpp: `class UnixServer`, over the state that its callbacks change.
pub mod Answers
use Prim.Native.String.{◌++◌}
use kekmonitors_cpp.Prelude.{
  ℕ, suc, String, Bool, true, false, not, ◌&&◌, Option, none, some, List, [], ◌∷◌, ◌==◌, str_eq,
  if◌then◌else◌,
}
use kekmonitors_cpp.Prelude.Outcome.{Outcome, done, throws, undefined, Exn, out_of_range}
use kekmonitors_cpp.Core.Codes.{
  CommandType, error_type, unrecognized_command, ErrorCode, is_error, operation_aborted,
}
use kekmonitors_cpp.Json.{JsonApi}
use kekmonitors_cpp.Msg.Cmd.{Cmd}
use kekmonitors_cpp.Msg.Response.{Response, new_response}

-- The acceptor, the connection that `async_accept` waits with, and the accepted connections whose
-- command is being read. Connections are numbered.
pub record UnixServer : Type 0 where
  pub is_open : Bool
  pub accepting : Option ℕ
  pub reading : List ℕ
  pub next_connection : ℕ

unfoldable pub new_server : UnixServer
new_server = record { is_open = true; accepting = none; reading = []; next_connection = 0 }

-- `getServerPath`, from the configured "GlobalConfig.socket_path".
unfoldable pub get_server_path : String → String → String
get_server_path socket_path socket_name = socket_path ++ ("/" ++ socket_name)

unfoldable pub start_accepting : UnixServer → UnixServer
start_accepting s = record s {
  accepting = some s.next_connection;
  next_connection = suc s.next_connection;
}

abbrev is_aborted : ErrorCode → Bool
is_aborted operation_aborted = true
is_aborted _ = false

-- `onConnect`, when `async_accept` ends.
unfoldable pub on_connect : ErrorCode → ℕ → UnixServer → UnixServer
unfolding is_error start_accepting
on_connect err connection s =
    let waiting = record s { accepting = none } in
    if not (is_error err)
    then start_accepting (record waiting { reading = connection ∷ s.reading })
    else if not (is_aborted err) && s.is_open
    then waiting
    else if s.is_open
    then start_accepting waiting
    else waiting

-- `shutdown`, but for the removal of the socket's file.
unfoldable pub shut_down : UnixServer → UnixServer
shut_down s = record s { is_open = false }

-- `std::map::at`, `none` where it throws `std::out_of_range`.
unfoldable pub callback_at {ℓ} : {A : Type ℓ} → CommandType → List (CommandType × A) → Option A
callback_at k [] = none
callback_at k ((j, f) ∷ m) = if j == k then some f else callback_at k m

module _ {Json : Type 0} ⦃J : JsonApi Json⦄ where
  -- The response to a command that has no callback.
  unfoldable pub unrecognized : Response Json
  unfolding new_response
  unrecognized = record new_response { error = error_type unrecognized_command }

module _ {Json S : Type 0} ⦃J : JsonApi Json⦄ (write : ℕ → Response Json → S → S) where
  -- The `try` block of `_handleCallback`.
  invoke : List (CommandType × (Cmd Json → ℕ → S → Outcome S)) → Cmd Json → ℕ → S → Outcome S
  invoke callbacks cmd connection s = elim (callback_at cmd.cmd callbacks) [
    | none ↦ throws out_of_range s
    | some f ↦ f cmd connection s
  ]

  -- Its handler for `std::out_of_range`, whether the look-up or the callback threw it.
  unfoldable pub recover : ℕ → Outcome S → Outcome S
  unfolding unrecognized
  recover connection (throws out_of_range s) = done (write connection unrecognized s)
  recover connection outcome = outcome

  unfoldable pub handle_callback :
      List (CommandType × (Cmd Json → ℕ → S → Outcome S)) → ErrorCode → Cmd Json → ℕ → S → Outcome S
  unfolding invoke recover is_error callback_at
  handle_callback callbacks err cmd connection s =
      if is_error err then done s else recover connection (invoke callbacks cmd connection s)
