-- ===== src/Moman/State.antt =====
-- The state of `class MonitorManager` and of the operations that it has started.
use kekmonitors_cpp.Prelude.{ℕ, String, Bool, true, false, Option, none, List, [], ◌∷◌, Map}
use kekmonitors_cpp.Core.Codes.{CommandType, MonitorOrScraper, monitor, scraper}
use kekmonitors_cpp.Msg.Cmd.{Cmd}
use kekmonitors_cpp.Server.{UnixServer, new_server}
use kekmonitors_cpp.Msg.Response.{Response}

-- `class Process`: the class name, the process and the time of its start.
pub record Process : Type 0 where
  pub class_name : String
  pub pid : ℕ
  pub creation : ℕ

-- `class StoredObject`. A timer is a number; `p_onStopTimer` and `p_stopCallback` are never used.
pub record StoredObject : Type 0 where
  pub process : Option Process
  pub endpoint : Option String
  pub on_add_timer : Option ℕ
  pub class_name : String
  pub is_being_added : Bool
  pub is_being_stopped : Bool
  pub confirm_added : Bool

unfoldable pub new_stored_object : String → StoredObject
new_stored_object class_name = record {
  process = none;
  endpoint = none;
  on_add_timer = none;
  class_name = class_name;
  is_being_added = false;
  is_being_stopped = false;
  confirm_added = false;
}

-- The response callbacks: a write to a client's connection, or `checkForCompletion` of the
-- completion with a number.
pub data Callback : Type 0 where
  direct : ℕ → Callback
  half : ℕ → Callback

-- The three commands for a monitor and its scraper together.
pub data Joint : Type 0 where
  joint_add joint_status joint_stop : Joint

-- `class MonitorScraperCompletion`; `joint` stands for its two callbacks.
pub record Completion (Json : Type 0) : Type 0 where
  pub both_completed : Bool
  pub cmd : Cmd Json
  pub joint : Joint
  pub connection : ℕ
  pub first_response : Response Json

-- What `checkSocketAndUpdateList` wants done once a socket has answered: to confirm an object that
-- is being added, or to store one for a process that the manager did not start.
pub data OnSuccess : Type 0 where
  confirm register : OnSuccess

-- What the event loop is still to call back for.
pub data Pending : Type 0 where
  -- the two `post`s of `MonitorScraperCompletion::run`
  posted : MonitorOrScraper → ℕ → Pending
  -- `delayTimer->async_wait` of `onAdd`: the timer, and what the handler captures
  add_wait : ℕ → MonitorOrScraper → String → Callback → Pending
  -- `asyncWriteCmd` of `onStop`: what its handler captures, then the socket that the connection goes
  -- to and the command written, which has no payload
  stop_write : MonitorOrScraper → String → Callback → String → CommandType → Pending
  -- `asyncReadResponse` of `onStop`
  stop_read : Callback → Pending
  -- `timer.async_wait`, `asyncWriteCmd` and `asyncReadResponse` of `verifySocketIsCommunicating`
  verify_wait : ℕ → MonitorOrScraper → String → String → OnSuccess → Pending
  verify_write verify_read : MonitorOrScraper → String → String → OnSuccess → Pending

-- A connection that `sendCmdIfProcess` starts: to which socket, for whom, and the command to write.
pub record Sending (Json : Type 0) : Type 0 where
  pub kind : MonitorOrScraper
  pub class_name : String
  pub endpoint : String
  pub cmd : Cmd Json

-- What a sending waits for: `async_connect`, `asyncWriteCmd`, `asyncReadResponse`.
pub data SendingStage : Type 0 where
  connecting writing reading_response : SendingStage

-- An `InotifyWatch`: the path and the mask.
pub record Watch : Type 0 where
  pub path : String
  pub mask : ℕ

pub record System (Json : Type 0) : Type 0 where
  pub monitors : Map StoredObject
  pub scrapers : Map StoredObject
  pub completions : List (Completion Json)
  pub pending : List Pending
  -- the responses written to connections, newest first
  pub replies : List (ℕ × Response Json)
  pub next_timer : ℕ
  -- the timers on which `cancel` was called
  pub cancelled : List ℕ
  pub server : UnixServer
  -- `m_fileWatcher`: whether it is open, and its list of watches
  pub watching : Bool
  pub watches : List Watch
  -- the sendings under way, newest first
  pub sendings : List (Sending Json × SendingStage)

module _ {Json : Type 0} where
  abbrev pub stored : MonitorOrScraper → System Json → Map StoredObject
  stored monitor s = s.monitors
  stored scraper s = s.scrapers

  abbrev pub set_stored : MonitorOrScraper → Map StoredObject → System Json → System Json
  set_stored monitor m s = record s { monitors = m }
  set_stored scraper m s = record s { scrapers = m }

  abbrev pub start : Pending → System Json → System Json
  start p s = record s { pending = p ∷ s.pending }

  -- Before the constructor's body.
  unfoldable pub empty_system : System Json
  empty_system = record {
    monitors = [];
    scrapers = [];
    completions = [];
    pending = [];
    replies = [];
    next_timer = 0;
    cancelled = [];
    server = new_server;
    watching = true;
    watches = [];
    sendings = [];
  }
