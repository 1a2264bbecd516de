-- ===== src/Moman/Expiry.antt =====
-- A process that leaves its socket behind before the timer of `onAdd` expires.
use kekmonitors_cpp.Prelude.{
  String, ◌≡◌, refl, Bool, none, some, Map, find, assign, is_some, arith, eq_iff, find-assign, ap,
}
use kekmonitors_cpp.Prelude.Outcome.{undefined}
use kekmonitors_cpp.Core.Bimap.{BimapApi}
use kekmonitors_cpp.Core.Codes.{MonitorOrScraper, monitor, scraper, success, is_error}
use kekmonitors_cpp.Json.{JsonApi}
use kekmonitors_cpp.Moman.State.{
  Process, StoredObject, Callback, OnSuccess, confirm, System, stored, set_stored,
}
use kekmonitors_cpp.Moman.Add.{add_expired, on_add_timer}
use kekmonitors_cpp.Moman.Processes.{remove_stored_process, on_process_exit}
use kekmonitors_cpp.Moman.Invariant.Answers.{if-rule}
use kekmonitors_cpp.Moman.Sockets.{in_create, update_list, verify_socket_is_communicating}

find-assign_self :
    (k : String) (old new : StoredObject) (m : Map StoredObject)
    → find k m ≡ some old
    → find k (assign k new m) ≡ some new
find-assign_self k old new m e = ground (arith, e, eq_iff k k, find-assign k k new m)

module _ {Json : Type 0} where
  stored-set_stored :
      (m : MonitorOrScraper) (map : Map StoredObject) (s : System Json)
      → stored m (set_stored m map s) ≡ map
  stored-set_stored monitor map s = refl
  stored-set_stored scraper map s = refl

  -- Asking a socket changes no stored object.
  stored-verify :
      (m : MonitorOrScraper) (path k : String) (next : OnSuccess) (connects : String → Bool)
      (s : System Json)
      → stored m (verify_socket_is_communicating m path k next connects s) ≡ stored m s
  unfolding verify_socket_is_communicating
  stored-verify monitor path k next connects s = ground arith
  stored-verify scraper path k next connects s = ground arith

  find-update_list :
      (m : MonitorOrScraper) (path k : String) (connects : String → Bool) (s : System Json)
      (obj : StoredObject)
      → find k (stored m s) ≡ some obj
      → find k (stored m (update_list m path k in_create connects s))
        ≡ some (record obj { endpoint = some path })
  unfolding update_list
  find-update_list m path k connects s obj e =
      let new = record obj { endpoint = some path } in
      let found = set_stored m (assign k new (stored m s)) s in
      let at : find k (stored m found) ≡ some new =
        rw (stored-set_stored m (assign k new (stored m s)) s)
          (find-assign_self k obj new (stored m s) e) in
      rw (e, update_list)
        (if-rule (λ t. find k (stored m t) ≡ some new) obj.is_being_added
          (verify_socket_is_communicating m path k confirm connects found) found
          (rw (stored-verify m path k confirm connects found) at) at)

  find-on_process_exit :
      (m : MonitorOrScraper) (k path : String) (s : System Json) (obj : StoredObject)
      → find k (stored m s) ≡ some obj
      → obj.endpoint ≡ some path
      → find k (stored m (on_process_exit success m k s)) ≡ some (record obj { process = none })
  unfolding on_process_exit remove_stored_process is_error
  find-on_process_exit m k path s obj e q =
      let new = record obj { process = none } in
      rw (stored-set_stored m (remove_stored_process k (stored m s)) s) (
        rw (e, remove_stored_process)
          (rw (ap is_some q) (find-assign_self k obj new (stored m s) e)))

module _ {Json M : Type 0} ⦃J : JsonApi Json⦄ ⦃b : BimapApi M⦄ (errors : M) where
  pub add_expired_undefined :
      (m : MonitorOrScraper) (k : String) (cb : Callback) (running : Process → Bool)
      (s : System Json) (obj : StoredObject)
      → find k (stored m s) ≡ some obj
      → obj.process ≡ none
      → add_expired errors m k cb running s ≡ undefined
  unfolding add_expired
  add_expired_undefined m k cb running s obj e q = rw (e, add_expired) (ground arith)

  -- If the socket of a stored monitor or scraper appears, its process exits and the socket stays, then
  -- the expiry of the timer of `onAdd` reads a process that is not there: its behaviour is undefined.
  pub on_add_timer_undefined :
      (m : MonitorOrScraper) (k path : String) (cb : Callback) (connects : String → Bool)
      (running : Process → Bool) (s : System Json) (obj : StoredObject)
      → find k (stored m s) ≡ some obj
      → on_add_timer errors success m k cb running
          (on_process_exit success m k (update_list m path k in_create connects s))
        ≡ undefined
  unfolding on_add_timer add_expired is_error
  on_add_timer_undefined m k path cb connects running s obj e =
      let found = find-update_list m path k connects s obj e in
      let gone = find-on_process_exit m k path _ (record obj { endpoint = some path }) found refl in
      add_expired_undefined m k cb running _ _ gone refl
