-- ===== src/Moman/Life/Rounds.antt =====
-- The life of the stored objects over the rounds of the loop.
use kekmonitors_cpp.Prelude.{
  String, ◌≡◌, refl, subst, sym, ap, ◌∙◌, ◌⊎◌, inl, inr, Option, none, some, find, arith,
}
use kekmonitors_cpp.Prelude.Outcome.{done}
use kekmonitors_cpp.Core.Bimap.{BimapApi}
use kekmonitors_cpp.Core.Codes.{MonitorOrScraper, monitor, scraper}
use kekmonitors_cpp.Json.{JsonApi}
use kekmonitors_cpp.Moman.State.{Process, StoredObject, System, stored}
use kekmonitors_cpp.Moman.Start.{StartWorld, init}
use kekmonitors_cpp.Moman.Loop.{
  World, Event, accepts, receives, ends, exits, notifies, sent, handle, MayHappen, Reach,
}
use kekmonitors_cpp.Moman.Invariant.Base.{Inv, Ensures}
use kekmonitors_cpp.Moman.Invariant.Rounds.{Reach-init-Inv}
use kekmonitors_cpp.Moman.Life.{
  SocketLife, found, unlinked, removed, Life, added, settled, stopping, bereft, ended, linked,
  Relation, Same, Once, SocketLives, unchanged, changed,
}
use kekmonitors_cpp.Moman.Life.Handlers.{Follows}
use kekmonitors_cpp.Moman.Life.Handling.{Once-handle, Watched-handle}

-- How a round may change what is stored: the watcher's, and any other.
abbrev pub LifeOf : {Json : Type 0} → Event Json → Relation
LifeOf (notifies watcher events) = SocketLives
LifeOf _ = Once

-- The process of what is stored.
abbrev pub process_of : Option StoredObject → Option Process
process_of none = none
process_of (some obj) = obj.process

SocketLife-process : {a b : Option StoredObject} → SocketLife a b → process_of b ≡ process_of a
SocketLife-process (found obj path) = refl
SocketLife-process (unlinked obj h) = refl
SocketLife-process (removed obj h) = ground (arith, h)

SocketLives-process :
    (k : String) {a b : Option StoredObject} → SocketLives k a b → process_of b ≡ process_of a
SocketLives-process k unchanged = refl
SocketLives-process k (changed l x) = SocketLife-process x ∙ SocketLives-process k l

Life-process :
    (k : String) {a b : Option StoredObject} (p : Process)
    → Life k a b
    → process_of b ≡ some p
    → (process_of a ≡ some p) ⊎ (a ≡ none)
Life-process k p (added q t) e = inr refl
Life-process k p (settled obj) e = inl e
Life-process k p (stopping obj h) e = inl e
Life-process k p (bereft obj h) e = absurd (ground (arith, e))
Life-process k p (ended obj h) e = absurd (ground (arith, e))
Life-process k p (linked x) e = inl (sym (SocketLife-process x) ∙ e)

Once-process :
    (k : String) (a b : Option StoredObject) (p : Process)
    → Once k a b
    → process_of b ≡ some p
    → (process_of a ≡ some p) ⊎ (a ≡ none)
Once-process k a b p (inl same) e = inl (ap process_of same ∙ e)
Once-process k a b p (inr life) e = Life-process k p life e

module _ {Json : Type 0} where
  Follows-stored :
      (R : Relation) (m : MonitorOrScraper) (s t : System Json) (k : String)
      → Follows R s t
      → R k (find k (stored m s)) (find k (stored m t))
  Follows-stored R monitor s t k h = h.monitors k
  Follows-stored R scraper s t k h = h.scrapers k

  Follows-start : (s : System Json) → Follows Same s s
  Follows-start s = record { monitors = λ k. refl; scrapers = λ k. refl }

module _ {Json M : Type 0} ⦃J : JsonApi Json⦄ ⦃b : BimapApi M⦄ (errors : M) where
  handle-Follows :
      (w : World) (e : Event Json) (s : System Json)
      → MayHappen s e
      → Inv s
      → Ensures (Follows (LifeOf e) s) (handle errors w e s)
  handle-Follows w (notifies watcher events) s may i = Watched-handle errors s w watcher events
  handle-Follows w (accepts err) s may i =
      Once-handle errors s w (accepts err) s may refl i (Follows-start s)
  handle-Follows w (receives n err cmd) s may i =
      Once-handle errors s w (receives n err cmd) s may refl i (Follows-start s)
  handle-Follows w (ends n e) s may i =
      Once-handle errors s w (ends n e) s may refl i (Follows-start s)
  handle-Follows w (exits ec m k) s may i =
      Once-handle errors s w (exits ec m k) s may refl i (Follows-start s)
  handle-Follows w (sent n err) s may i =
      Once-handle errors s w (sent n err) s may refl i (Follows-start s)

  -- In every state that the event loop reaches from the one that the constructor leaves, a round
  -- changes what is stored under a class name only as its life allows. A round of the watcher makes
  -- changes by sockets: one appears, or is given up, where an object without a process goes with it.
  -- Any other round makes one change at most: such a one, or the start of a process where nothing is
  -- stored, the end of an addition, the mark of an object with a socket as being stopped, or the
  -- loss of the process, where an object without a socket goes with it.
  pub handle-LifeOf :
      {s t : System Json} (w : StartWorld)
      → Reach errors (init w) s
      → (v : World) (e : Event Json) → MayHappen s e
      → handle errors v e s ≡ done t
      → (m : MonitorOrScraper) (k : String) → LifeOf e k (find k (stored m s)) (find k (stored m t))
  handle-LifeOf {s} {t} w past v e may q m k = Follows-stored (LifeOf e) m s t k (
      subst (Ensures (Follows (LifeOf e) s)) q
        (handle-Follows v e s may (Reach-init-Inv errors w past)))

  LifeOf-process :
      (e : Event Json) (k : String) (a b : Option StoredObject) (p : Process)
      → LifeOf e k a b
      → process_of b ≡ some p
      → (process_of a ≡ some p) ⊎ (a ≡ none)
  LifeOf-process (notifies watcher events) k a b p l e = inl (sym (SocketLives-process k l) ∙ e)
  LifeOf-process (accepts err) k a b p l e = Once-process k a b p l e
  LifeOf-process (receives n err cmd) k a b p l e = Once-process k a b p l e
  LifeOf-process (ends n x) k a b p l e = Once-process k a b p l e
  LifeOf-process (exits ec m i) k a b p l e = Once-process k a b p l e
  LifeOf-process (sent n err) k a b p l e = Once-process k a b p l e

  -- In every state that the event loop reaches from the one that the constructor leaves: a process
  -- that is stored under a class name after a round was stored there before it, or nothing was.
  pub process-started :
      {s t : System Json} (w : StartWorld)
      → Reach errors (init w) s
      → (v : World) (e : Event Json) → MayHappen s e
      → handle errors v e s ≡ done t
      → (m : MonitorOrScraper) (k : String) (p : Process)
      → process_of (find k (stored m t)) ≡ some p
      → (process_of (find k (stored m s)) ≡ some p) ⊎ (find k (stored m s) ≡ none)
  process-started {s} {t} w past v e may q m k p h =
      LifeOf-process e k (find k (stored m s)) (find k (stored m t)) p
        (handle-LifeOf w past v e may q m k) h
