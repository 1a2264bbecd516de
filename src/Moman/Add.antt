-- ===== src/Moman/Add.antt =====
-- `MonitorManager::onAdd` of src/bin/moman/callbacks.cpp and its timer's handler.
use Prim.Native.String.{◌++◌}
use kekmonitors_cpp.Prelude.{
  ℕ, suc, String, Bool, true, false, Option, none, some, Map, find, assign, emplace, is_some,
  str_eq, if◌then◌else◌,
}
use kekmonitors_cpp.Prelude.Outcome.{
  Outcome, done, throws, undefined, json_exception, bson_exception, process_error,
}
use kekmonitors_cpp.Core.Bimap.{BimapApi}
use kekmonitors_cpp.Core.Codes.{
  Errors, error_type, MonitorOrScraper, monitor, scraper, mm_couldnt_add_monitor,
  mm_couldnt_add_scraper, missing_payload, missing_payload_args, monitor_not_registered,
  scraper_not_registered, ErrorCode, is_error, operation_aborted,
}
use kekmonitors_cpp.Json.{JsonApi}
use kekmonitors_cpp.Msg.Cmd.{Cmd, then_convert}
use kekmonitors_cpp.Msg.Response.{Response, new_response, ok_response, bad_response}
use kekmonitors_cpp.Moman.State.{
  Process, StoredObject, new_stored_object, Callback, add_wait, System, stored, set_stored, start,
}
use kekmonitors_cpp.Moman.Reply.{call_back}

-- What `find_one` of the register gives for a name: an exception with a text, no document, or a
-- document with its "path", `none` if that is not a text.
pub data Registered : Type 0 where
  query_exception : String → Registered
  not_registered : Registered
  registered : Option String → Registered

-- The world that `onAdd` asks: what `getPythonExecutable` gives, throws or leaves undefined; the
-- register in the data base; the start of a process by its command line, with its id and time, `none` if it throws.
pub record AddWorld : Type 0 where
  pub python_executable : Outcome String
  pub find_one : MonitorOrScraper → String → Registered
  pub spawn : String → Option (ℕ × ℕ)

abbrev pub kind_name : MonitorOrScraper → String
kind_name monitor = "Monitor"
kind_name scraper = "Scraper"

abbrev pub add_error : MonitorOrScraper → Errors
add_error monitor = mm_couldnt_add_monitor
add_error scraper = mm_couldnt_add_scraper

abbrev pub not_registered_error : MonitorOrScraper → Errors
not_registered_error monitor = monitor_not_registered
not_registered_error scraper = scraper_not_registered

abbrev pub is_cancelled : ErrorCode → Bool
is_cancelled operation_aborted = true
is_cancelled _ = false

-- The object with its process and timer.
abbrev pub with_process : Process → ℕ → StoredObject → StoredObject
with_process process timer obj = record obj {
  process = some process;
  is_being_added = true;
  on_add_timer = some timer;
}

-- The two branches that store it: in the object that is there, or in a new one.
unfoldable pub store_process : String → Process → ℕ → Map StoredObject → Map StoredObject
unfolding new_stored_object
store_process class_name process timer m = elim (find class_name m) [
  | some obj ↦ assign class_name (with_process process timer obj) m
  | none ↦ emplace class_name (with_process process timer (new_stored_object class_name)) m
]

module _ {Json : Type 0} ⦃J : JsonApi Json⦄ where
  -- `setError` and `setInfo` on a new response.
  unfoldable pub error_response : Errors → String → Response Json
  unfolding new_response
  error_response e text = record new_response { error = error_type e; info = text }

  -- Why an object that is stored already cannot be added, by the tests in their order.
  unfoldable pub add_refusal : MonitorOrScraper → StoredObject → Option (Response Json)
  unfolding error_response
  add_refusal m obj =
      if obj.is_being_added
      then some (error_response (add_error m) (kind_name m ++ " still being processed."))
      else if is_some obj.process
      then some (error_response (add_error m) (kind_name m ++ " already started."))
      else if is_some obj.endpoint
      then some (error_response (add_error m) (kind_name m ++ " already has a socket available."))
      else none

  unfoldable pub stored_refusal : MonitorOrScraper → Option StoredObject → Option (Response Json)
  unfolding add_refusal
  stored_refusal m none = none
  stored_refusal m (some obj) = add_refusal m obj

  -- The map with the new process stored, and then the wait on the timer.
  unfoldable pub started : MonitorOrScraper → String → Callback → ℕ × ℕ → System Json → System Json
  unfolding store_process
  started m class_name cb (pid, creation) s =
      let process : Process = record { class_name = class_name; pid = pid; creation = creation } in
      let map = store_process class_name process s.next_timer (stored m s) in
      let waiting = start (add_wait s.next_timer m class_name cb) (set_stored m map s) in
      record waiting { next_timer = suc s.next_timer }

module _ {Json M : Type 0} ⦃J : JsonApi Json⦄ ⦃b : BimapApi M⦄ (errors : M) where
  -- `onAdd` from the search of the register on.
  unfoldable pub add_registered :
      MonitorOrScraper → String → String → Callback → AddWorld → System Json → Outcome (System Json)
  unfolding call_back error_response started
  add_registered m class_name python cb world s = elim (world.find_one m class_name) [
    | query_exception what ↦
        call_back errors cb
          (error_response (add_error m)
            ("Failed to query the database (is it up and running?)\n" ++ what))
          s
    | not_registered ↦ call_back errors cb (error_response (not_registered_error m) "") s
    | registered none ↦ throws bson_exception s
    | registered (some path) ↦
        elim (world.spawn (python ++ (" " ++ (path ++ " --no-config-watcher --no-output")))) [
          | none ↦ throws process_error s
          | some p ↦ done (started m class_name cb p s)
        ]
  ]

  -- `onAdd` once the class name is read.
  unfoldable pub add_named :
      MonitorOrScraper → String → Callback → AddWorld → System Json → Outcome (System Json)
  unfolding stored_refusal call_back error_response add_registered
  add_named m class_name cb world s = elim (stored_refusal m (find class_name (stored m s))) [
    | some refusal ↦ call_back errors cb refusal s
    | none ↦ elim world.python_executable [
      | throws e _ ↦ throws e s
      | undefined ↦ undefined
      | done python ↦
          if str_eq python ""
          then call_back errors cb
              (error_response (add_error m) "Could not find a correct python version.") s
          else add_registered m class_name python cb world s
    ]
  ]

  unfoldable pub on_add :
      MonitorOrScraper → Cmd Json → Callback → AddWorld → System Json → Outcome (System Json)
  unfolding call_back error_response add_named
  on_add m cmd cb world s =
      if J.is_null cmd.payload
      then call_back errors cb (error_response missing_payload "") s
      else if J.contains cmd.payload "name"
      then (elim (then_convert (J.at cmd.payload "name") J.as_string) [
        | none ↦ throws json_exception s
        | some class_name ↦ add_named m class_name cb world s
      ])
      else call_back errors cb
          (error_response missing_payload_args "Missing payload arg: \"name\".") s

  -- The timer was cancelled: the object is gone, or it was confirmed, or neither.
  unfoldable pub add_cancelled :
      MonitorOrScraper → String → Callback → System Json → Outcome (System Json)
  unfolding bad_response ok_response call_back
  add_cancelled m class_name cb s = elim (find class_name (stored m s)) [
    | none ↦
        call_back errors cb
          (record bad_response {
            error = error_type (add_error m);
            info = "Process exited sooner than expected.";
          })
          s
    | some obj ↦
        let added = record obj { is_being_added = false } in
        if obj.confirm_added
        then call_back errors cb ok_response (
            set_stored m (assign class_name (record added { confirm_added = false }) (stored m s))
              s)
        else done (set_stored m (assign class_name added (stored m s)) s)
  ]

  -- The timer expired; `running` tells of the object's process. Reading the process of an object
  -- that has none is undefined.
  unfoldable pub add_expired :
      MonitorOrScraper → String → Callback → (Process → Bool) → System Json → Outcome (System Json)
  unfolding bad_response ok_response call_back
  add_expired m class_name cb running s = elim (find class_name (stored m s)) [
    | none ↦
        call_back errors cb
          (record bad_response {
            error = error_type (add_error m);
            info =
                "Process exited sooner than expected. (WARNING: THIS CASE (1) SHOULD NOT HAVE HAPPENED -- NEED TO DEBUG!!!)";
          })
          s
    | some obj ↦ elim obj.process [
      | none ↦ undefined
      | some p ↦
          if running p
          then call_back errors cb ok_response (
              set_stored m (assign class_name (record obj { is_being_added = false }) (stored m s))
                s)
          else call_back errors cb
              (record bad_response {
                error = error_type (add_error m);
                info =
                    "Process exited sooner than expected. (WARNING: THIS CASE (2) SHOULD NOT HAVE HAPPENED -- NEED TO DEBUG!!!)";
              })
              s
    ]
  ]

  -- The handler of `delayTimer->async_wait`. The error of a cancelled wait, `operation_aborted`, is
  -- what the test against `errc::operation_canceled` finds.
  unfoldable pub on_add_timer :
      ErrorCode
      → MonitorOrScraper
      → String
      → Callback
      → (Process → Bool)
      → System Json
      → Outcome (System Json)
  unfolding add_cancelled add_expired is_error
  on_add_timer ec m class_name cb running s =
      if is_error ec
      then if is_cancelled ec then add_cancelled m class_name cb s else done s
      else add_expired m class_name cb running s
