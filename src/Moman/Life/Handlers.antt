-- ===== src/Moman/Life/Handlers.antt =====
-- The handlers and the life of the stored objects.
use kekmonitors_cpp.Prelude.{
  ℕ, String, Option, subst, sym, ◌≡◌, Bool, none, some, Map, find, assign, ◌==◌, inl, inr,
}
use kekmonitors_cpp.Core.Bimap.{BimapApi}
use kekmonitors_cpp.Core.Codes.{MonitorOrScraper, monitor, scraper, ErrorCode, is_error}
use kekmonitors_cpp.Json.{JsonApi}
use kekmonitors_cpp.Msg.Response.{Response}
use kekmonitors_cpp.Moman.State.{
  Process, StoredObject, OnSuccess, confirm, register, Callback, System, stored, set_stored,
}
use kekmonitors_cpp.Moman.Reply.{write_response, call_back}
use kekmonitors_cpp.Moman.Add.{started}
use kekmonitors_cpp.Moman.Processes.{on_process_exit, remove_stored_socket}
use kekmonitors_cpp.Moman.Sockets.{
  in_create, in_delete, parse_socket_name, socket_name_of, update_list,
  check_socket_and_update_list, verify_socket_is_communicating,
}
use kekmonitors_cpp.Moman.Invariant.Base.{Ensures}
use kekmonitors_cpp.Moman.Invariant.Answers.{Option-rule, if-rule, call_back_cases}
use kekmonitors_cpp.Moman.Life.{
  found, Life, Relation, Same, Once, Once-same, Once-socket, SocketLives, unchanged, changed,
  SocketLives-append, SocketLives-one, AllLive, AllLive-assign, AllLive-store_process,
  AllLive-remove_stored_socket, AllLive-remove_stored_process,
}

module _ {Json : Type 0} where
  -- The relation holds between what was stored and what is stored.
  pub record Follows (R : Relation) (old s : System Json) : Type 0 where
    pub monitors : AllLive R old.monitors s.monitors
    pub scrapers : AllLive R old.scrapers s.scrapers

  pub Follows-Once : (old s : System Json) → Follows Same old s → Follows Once old s
  Follows-Once old s h = record {
    monitors = λ k. inl (h.monitors k);
    scrapers = λ k. inl (h.scrapers k);
  }

  pub Follows-set_stored :
      (Q R : Relation) (old : System Json)
      (lift : (k : String) (a b : Option StoredObject) → Q k a b → R k a b)
      (join : (k : String) (a b c : Option StoredObject) → Q k a b → R k b c → R k a c)
      (m : MonitorOrScraper) (map : Map StoredObject) (s : System Json)
      → Follows Q old s
      → AllLive R (stored m s) map
      → Follows R old (set_stored m map s)
  Follows-set_stored Q R old lift join monitor map s h a = record {
    monitors = λ k. join k _ _ _ (h.monitors k) (a k);
    scrapers = λ k. lift k _ _ (h.scrapers k);
  }
  Follows-set_stored Q R old lift join scraper map s h a = record {
    monitors = λ k. lift k _ _ (h.monitors k);
    scrapers = λ k. join k _ _ _ (h.scrapers k) (a k);
  }

module _ {Json : Type 0} (old : System Json) where
  -- The one change of a round that is not the watcher's.
  pub Once-set_stored :
      (m : MonitorOrScraper) (map : Map StoredObject) (s : System Json)
      → Follows Same old s
      → AllLive Once (stored m s) map
      → Follows Once old (set_stored m map s)
  Once-set_stored =
      Follows-set_stored Same Once old (λ k a b e. inl e)
        (λ k a b c e x. subst (λ o. Once k o c) (sym e) x)

  pub Once-assign :
      (m : MonitorOrScraper) (k : String) (obj new : StoredObject) (s : System Json)
      → Follows Same old s
      → find k (stored m s) ≡ some obj
      → Life k (some obj) (some new)
      → Follows Once old (set_stored m (assign k new (stored m s)) s)
  Once-assign m k obj new s h e x =
      Once-set_stored m _ s h (AllLive-assign Once Once-same k obj new (stored m s) e (inr x))

  pub Once-remove_stored_socket :
      (m : MonitorOrScraper) (k : String) (s : System Json)
      → Follows Same old s
      → Follows Once old (set_stored m (remove_stored_socket k (stored m s)) s)
  Once-remove_stored_socket m k s h =
      Once-set_stored m _ s h
        (AllLive-remove_stored_socket Once Once-same Once-socket k (stored m s))

  pub Once-on_process_exit :
      (ec : ErrorCode) (m : MonitorOrScraper) (k : String) (s : System Json)
      → Follows Same old s
      → Follows Once old (on_process_exit ec m k s)
  unfolding on_process_exit
  Once-on_process_exit ec m k s h =
      if-rule (Follows Once old) (is_error ec) _ _ (Follows-Once old s h)
        (Once-set_stored m _ s h (AllLive-remove_stored_process k (stored m s)))

  -- The changes that the watcher makes.
  SocketLives-set_stored :
      (m : MonitorOrScraper) (map : Map StoredObject) (s : System Json)
      → Follows SocketLives old s
      → AllLive SocketLives (stored m s) map
      → Follows SocketLives old (set_stored m map s)
  SocketLives-set_stored =
      Follows-set_stored SocketLives SocketLives old (λ k a b x. x)
        (λ k a b c x y. SocketLives-append x y)

  SocketLives-verify :
      (m : MonitorOrScraper) (path k : String) (next : OnSuccess) (connects : String → Bool)
      (s : System Json)
      → Follows SocketLives old s
      → Follows SocketLives old (verify_socket_is_communicating m path k next connects s)
  unfolding verify_socket_is_communicating
  SocketLives-verify m path k next connects s h =
      if-rule (Follows SocketLives old) (connects path) _ _ h
        (record { monitors = h.monitors; scrapers = h.scrapers })

  SocketLives-update_list :
      (m : MonitorOrScraper) (path k : String) (mask : ℕ) (connects : String → Bool)
      (s : System Json)
      → Follows SocketLives old s
      → Follows SocketLives old (update_list m path k mask connects s)
  unfolding update_list
  SocketLives-update_list m path k mask connects s h =
      if-rule (Follows SocketLives old) (mask == in_create) _ _
        (Option-rule (Follows SocketLives old) (find k (stored m s)) _ _
          (SocketLives-verify m path k register connects s h)
          (λ obj e.
            let linked = SocketLives-set_stored m _ s h (
              AllLive-assign SocketLives (λ i a. unchanged) k obj _ (stored m s) e
                (changed unchanged (found obj path))) in
            if-rule (Follows SocketLives old) obj.is_being_added _ _
              (SocketLives-verify m path k confirm connects _ linked) linked))
        (if-rule (Follows SocketLives old) (mask == in_delete) _ _
          (SocketLives-set_stored m _ s h (
            AllLive-remove_stored_socket SocketLives (λ i a. unchanged) SocketLives-one k
              (stored m s)))
          h)

  pub SocketLives-check_socket_and_update_list :
      (path name : String) (mask : ℕ) (connects : String → Bool) (s : System Json)
      → Follows SocketLives old s
      → Follows SocketLives old (check_socket_and_update_list path name mask connects s)
  unfolding check_socket_and_update_list
  SocketLives-check_socket_and_update_list path name mask connects s h =
      Option-rule (Follows SocketLives old) (parse_socket_name (socket_name_of path name)) _ _ h
        (λ named _. SocketLives-update_list named.0 path named.1 mask connects s h)

module _ {Json M : Type 0} ⦃J : JsonApi Json⦄ ⦃b : BimapApi M⦄ (errors : M)
    (old : System Json) where
  pub Follows-call_back :
      (R : Relation) (cb : Callback) (r : Response Json) (s : System Json)
      → Follows R old s
      → Ensures (Follows R old) (call_back errors cb r s)
  unfolding write_response
  Follows-call_back R cb r s h =
      call_back_cases errors (Follows R old) cb r s h
        (λ c x. record { monitors = h.monitors; scrapers = h.scrapers })
        (λ cs. record { monitors = h.monitors; scrapers = h.scrapers })

  pub Once-started :
      (m : MonitorOrScraper) (k : String) (cb : Callback) (p : ℕ × ℕ) (s : System Json)
      → find k (stored m s) ≡ none
      → Follows Same old s
      → Follows Once old (started m k cb p s)
  unfolding started
  Once-started m k cb (pid, creation) s e h =
      let process : Process = record { class_name = k; pid = pid; creation = creation } in
      let kept =
        Once-set_stored old m _ s h (AllLive-store_process k process s.next_timer (stored m s) e) in
      record { monitors = kept.monitors; scrapers = kept.scrapers }
