-- ===== src/Moman/Loop.antt =====
-- The event loop: which handler runs for what has happened. `main` of src/bin/moman/moman.cpp runs
-- the loop until nothing is pending; the callback map is that of the manager's constructor.
use kekmonitors_cpp.Prelude.{
  ℕ, String, Bool, false, not, ◌&&◌, ◌||◌, none, some, List, [], ◌∷◌, Map, get_elem?, set,
  remove_at, ◌==◌, ◌≡◌, ◌⊎◌,
}
use kekmonitors_cpp.Prelude.Outcome.{Outcome, done, undefined}
use kekmonitors_cpp.Core.Bimap.{BimapApi}
use kekmonitors_cpp.Core.Codes.{
  CommandType, command_type, MonitorOrScraper, monitor, scraper, ping, mm_stop_monitor_manager,
  mm_add_monitor, mm_add_scraper, mm_add_monitor_scraper, mm_get_monitor_status,
  mm_get_scraper_status, mm_get_monitor_scraper_status, mm_stop_monitor, mm_stop_scraper,
  mm_stop_monitor_scraper, ErrorCode, success, operation_aborted,
}
use kekmonitors_cpp.Json.{JsonApi}
use kekmonitors_cpp.Msg.Cmd.{Cmd}
use kekmonitors_cpp.Msg.Response.{Response}
use kekmonitors_cpp.Server.{handle_callback, on_connect}
use kekmonitors_cpp.Moman.State.{
  Process, StoredObject, direct, half, Joint, joint_add, joint_status, joint_stop, Completion,
  Pending, posted, add_wait, stop_write, stop_read, verify_wait, verify_write, verify_read, System,
}
use kekmonitors_cpp.Moman.Reply.{write_response, create_completion}
use kekmonitors_cpp.Moman.Add.{AddWorld, on_add, on_add_timer}
use kekmonitors_cpp.Moman.Stop.{on_stop, on_stop_written, on_stop_read}
use kekmonitors_cpp.Moman.Status.{on_get_status, on_ping, shutdown}
use kekmonitors_cpp.Moman.Processes.{on_process_exit}
use kekmonitors_cpp.Moman.Configs.{next_stage}
use kekmonitors_cpp.Moman.Watcher.{WatcherWorld, InotifyEvent, on_inotify_update}
use kekmonitors_cpp.Moman.Sockets.{on_verify_timer, on_verify_written, on_verify_read}

-- The handlers of a sending, which only start its next operation.
unfoldable pub on_sent : {Json : Type 0} → ℕ → ErrorCode → System Json → System Json
unfolding next_stage
on_sent n err s = elim (get_elem? s.sendings n) [
  | none ↦ s
  | some (sending, stage) ↦ elim (next_stage stage err) [
    | none ↦ record s { sendings = remove_at s.sendings n }
    | some stage' ↦ record s { sendings = set s.sendings n (sending, stage') }
  ]
]

-- What a handler finds in the world when it runs.
pub record World : Type 0 where
  pub add : AddWorld
  -- which sockets accept a connection, and which processes run
  pub connects : String → Bool
  pub running : Process → Bool

-- How a pending operation ends: its error, that error's text, and a response that was read.
pub record Ending (Json : Type 0) : Type 0 where
  pub error : ErrorCode
  pub message : String
  pub response : Response Json

pub data Event (Json : Type 0) : Type 0 where
  -- `async_accept` ends
  accepts : ErrorCode → Event Json
  -- the read of the command on the n-th of the connections that are being read ends
  receives : ℕ → ErrorCode → Cmd Json → Event Json
  -- the n-th pending operation ends
  ends : ℕ → Ending Json → Event Json
  -- a process of the kind and class name exits
  exits : ErrorCode → MonitorOrScraper → String → Event Json
  -- the watcher has events
  notifies : WatcherWorld Json → List InotifyEvent → Event Json
  -- the n-th sending under way ends its stage
  sent : ℕ → ErrorCode → Event Json

module _ {Json M : Type 0} ⦃J : JsonApi Json⦄ ⦃b : BimapApi M⦄ (errors : M) where
  joint_command : Joint → Cmd Json → ℕ → System Json → Outcome (System Json)
  joint_command joint cmd connection s = done (create_completion joint cmd connection s)

  -- The `CallbackMap` that the constructor hands to the server.
  unfoldable pub callback_map :
      World → List (CommandType × (Cmd Json → ℕ → System Json → Outcome (System Json)))
  unfolding joint_command
  callback_map w =
      (command_type ping, λ cmd c. on_ping errors (direct c))
      ∷ (
        command_type mm_stop_monitor_manager,
        λ cmd c s. (shutdown errors (direct c) w.running s).0,
      )
      ∷ (command_type mm_add_monitor, λ cmd c. on_add errors monitor cmd (direct c) w.add)
      ∷ (command_type mm_add_scraper, λ cmd c. on_add errors scraper cmd (direct c) w.add)
      ∷ (command_type mm_add_monitor_scraper, joint_command joint_add)
      ∷ (command_type mm_get_monitor_status, λ cmd c. on_get_status errors monitor (direct c))
      ∷ (command_type mm_get_scraper_status, λ cmd c. on_get_status errors scraper (direct c))
      ∷ (command_type mm_get_monitor_scraper_status, joint_command joint_status)
      ∷ (command_type mm_stop_monitor, λ cmd c. on_stop errors monitor cmd (direct c) w.connects)
      ∷ (command_type mm_stop_scraper, λ cmd c. on_stop errors scraper cmd (direct c) w.connects)
      ∷ (command_type mm_stop_monitor_scraper, joint_command joint_stop)
      ∷ []

  -- A command that was read on a connection.
  unfoldable pub receive : World → ErrorCode → Cmd Json → ℕ → System Json → Outcome (System Json)
  receive w err cmd connection s =
      handle_callback write_response (callback_map w) err cmd connection s

  -- `m_momanCb`, with `checkForCompletion` for its callback.
  unfoldable pub run_joint :
      World → MonitorOrScraper → ℕ → Completion Json → System Json → Outcome (System Json)
  run_joint w m id c s = elim c.joint [
    | joint_add ↦ on_add errors m c.cmd (half id) w.add s
    | joint_status ↦ on_get_status errors m (half id) s
    | joint_stop ↦ on_stop errors m c.cmd (half id) w.connects s
  ]

  -- The handler of a pending operation that has been taken off the list.
  unfoldable pub resume : World → Pending → Ending Json → System Json → Outcome (System Json)
  unfolding run_joint
  resume w (posted m id) e s = elim (get_elem? s.completions id) [
    | none ↦ undefined
    | some c ↦ run_joint w m id c s
  ]
  resume w (add_wait t m class_name cb) e s =
      on_add_timer errors e.error m class_name cb w.running s
  resume w (stop_write m class_name cb ep command) e s =
      on_stop_written errors e.error e.message m class_name cb s
  resume w (stop_read cb) e s = on_stop_read errors e.error e.response cb s
  resume w (verify_wait t m path class_name k) e s =
      done (on_verify_timer e.error m path class_name k w.connects s)
  resume w (verify_write m path class_name k) e s =
      done (on_verify_written e.error m path class_name k s)
  resume w (verify_read m path class_name k) e s =
      on_verify_read e.error e.response m path class_name k s

  -- One round of the loop. What the list of operations does not hold cannot happen.
  unfoldable pub handle : World → Event Json → System Json → Outcome (System Json)
  unfolding receive resume on_inotify_update on_sent
  handle w (accepts err) s = elim s.server.accepting [
    | none ↦ done s
    | some c ↦ done (record s { server = on_connect err c s.server })
  ]
  handle w (receives n err cmd) s = elim (get_elem? s.server.reading n) [
    | none ↦ done s
    | some c ↦
        let server = s.server in
        let read = record server { reading = remove_at server.reading n } in
        receive w err cmd c (record s { server = read })
  ]
  handle w (ends n e) s = elim (get_elem? s.pending n) [
    | none ↦ done s
    | some p ↦ resume w p e (record s { pending = remove_at s.pending n })
  ]
  handle w (exits ec m class_name) s = done (on_process_exit ec m class_name s)
  handle w (notifies watcher events) s = on_inotify_update watcher events s
  handle w (sent n err) s = done (on_sent n err s)

-- Whether an object of the map owns the timer.
abbrev pub owns : ℕ → Map StoredObject → Bool
owns t [] = false
owns t ((k, obj) ∷ m) = elim obj.on_add_timer [ none ↦ false | some u ↦ u == t ] || owns t m

abbrev pub mem : ℕ → List ℕ → Bool
mem t [] = false
mem t (u ∷ l) = u == t || mem t l

-- Whether the monitor's half of a completion is still posted.
abbrev pub monitor_posted : ℕ → List Pending → Bool
monitor_posted id [] = false
monitor_posted id (posted monitor j ∷ l) = j == id || monitor_posted id l
monitor_posted id (_ ∷ l) = monitor_posted id l

-- Whether an object owns the timer, and it was not cancelled.
abbrev pub is_live : {Json : Type 0} → ℕ → System Json → Bool
is_live t s = (owns t s.monitors || owns t s.scrapers) && not (mem t s.cancelled)

-- What boost::asio documents of the order and the end of operations. Posted calls run in the order of
-- the posts. A wait ends with `success` when its timer expires, and with `operation_aborted` only if
-- the timer was cancelled or destroyed; the timer of `verifySocketIsCommunicating` is destroyed
-- before the loop can see it expire. Other operations may end with any error.
abbrev pub MayEnd : {Json : Type 0} → System Json → Pending → ErrorCode → Type 0
MayEnd s (posted scraper id) ec = monitor_posted id s.pending ≡ false
MayEnd s (add_wait t m class_name cb) ec =
    (ec ≡ success) ⊎ ((ec ≡ operation_aborted) × (is_live t s ≡ false))
MayEnd s (verify_wait t m path class_name k) ec = ec ≡ operation_aborted
MayEnd s _ ec = Unit {0}

abbrev pub MayHappen : {Json : Type 0} → System Json → Event Json → Type 0
MayHappen s (ends n e) = (p : Pending) → get_elem? s.pending n ≡ some p → MayEnd s p e.error
MayHappen s _ = Unit {0}

module _ {Json M : Type 0} ⦃J : JsonApi Json⦄ ⦃b : BimapApi M⦄ (errors : M) where
  -- One round of the loop that returns.
  pub data Step (s t : System Json) : Type 0 where
    step : (w : World) (e : Event Json) → MayHappen s e → handle errors w e s ≡ done t → Step s t

  -- What the loop reaches from a state.
  pub data Reach (s : System Json) : System Json → Type 0 where
    here : Reach s s
    next : {t u : System Json} → Reach s t → Step t u → Reach s u
