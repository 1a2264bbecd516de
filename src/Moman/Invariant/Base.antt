-- ===== src/Moman/Invariant/Base.antt =====
-- The invariant of the manager, and how it survives a change of one object.
use kekmonitors_cpp.Prelude.{
  ℕ, String, ◌≡◌, some, List, [], ◌∷◌, Map, find, assign, is_some, arith, Bool-cases, Option-cases,
  inl, inr, get_elem?, remove_at, zero, suc,
}
use kekmonitors_cpp.Prelude.Outcome.{Outcome, done, throws, undefined}
use kekmonitors_cpp.Core.Codes.{MonitorOrScraper, monitor, scraper}
use kekmonitors_cpp.Moman.State.{
  StoredObject, Pending, verify_write, verify_read, System, stored, set_stored, start,
}
use kekmonitors_cpp.Moman.Processes.{remove_stored_socket, remove_stored_process}
use kekmonitors_cpp.Moman.Invariant.Entries.{
  All-find, IsStored, AreStored, AreStored-erase, AreStored-assign,
}

-- The operation is none that follows a connection of `verifySocketIsCommunicating`.
abbrev pub IsUnverified : Pending → Type 0
IsUnverified (verify_write m path class_name k) = ⊥
IsUnverified (verify_read m path class_name k) = ⊥
IsUnverified _ = Unit {0}

abbrev pub AllUnverified : List Pending → Type 0
AllUnverified [] = Unit
AllUnverified (p ∷ l) = IsUnverified p × AllUnverified l

pub record Inv {Json : Type 0} (s : System Json) : Type 0 where
  pub monitors : AreStored s.monitors
  pub scrapers : AreStored s.scrapers
  pub unverified : AllUnverified s.pending
  pub uncancelled : s.cancelled ≡ []

-- What a call leaves, also where an exception leaves it.
abbrev pub Ensures : {S : Type 0} → (S → Type 0) → Outcome S → Type 0
Ensures P (done s) = P s
Ensures P (throws e s) = P s
Ensures P undefined = Unit

pub AllUnverified-remove_at :
    (l : List Pending) (n : ℕ) → AllUnverified l → AllUnverified (remove_at l n)
AllUnverified-remove_at [] n h = tt
AllUnverified-remove_at (p ∷ l) zero h = h.1
AllUnverified-remove_at (p ∷ l) (suc n) h = (h.0, AllUnverified-remove_at l n h.1)

pub AllUnverified-get_elem? :
    (l : List Pending) (n : ℕ) (p : Pending)
    → AllUnverified l
    → get_elem? l n ≡ some p
    → IsUnverified p
AllUnverified-get_elem? [] n p h e = absurd (ground arith)
AllUnverified-get_elem? (q ∷ l) zero p h e = let same : p ≡ q = ground arith in rw same h.0
AllUnverified-get_elem? (q ∷ l) (suc n) p h e = AllUnverified-get_elem? l n p h.1 e

pub AreStored-remove_stored_socket :
    (k : String) (m : Map StoredObject) → AreStored m → AreStored (remove_stored_socket k m)
unfolding remove_stored_socket
AreStored-remove_stored_socket k m h = elim (Option-cases (find k m)) [
  | inl e ↦ rw (e, remove_stored_socket) h
  | inr (obj, e) ↦
      let old = All-find IsStored k obj m h.entries e in
      elim (Bool-cases (is_some obj.process)) [
        | inl kept ↦
            rw (e, remove_stored_socket) (rw kept (AreStored-assign k _ m h (ground (arith, old))))
        | inr gone ↦ rw (e, remove_stored_socket) (rw gone (AreStored-erase k m h))
      ]
]

pub AreStored-remove_stored_process :
    (k : String) (m : Map StoredObject) → AreStored m → AreStored (remove_stored_process k m)
unfolding remove_stored_process
AreStored-remove_stored_process k m h = elim (Option-cases (find k m)) [
  | inl e ↦ rw (e, remove_stored_process) h
  | inr (obj, e) ↦
      let old = All-find IsStored k obj m h.entries e in
      elim (Bool-cases (is_some obj.endpoint)) [
        | inl kept ↦
            rw (e, remove_stored_process) (rw kept (AreStored-assign k _ m h (ground (arith, old))))
        | inr gone ↦ rw (e, remove_stored_process) (rw gone (AreStored-erase k m h))
      ]
]

module _ {Json : Type 0} where
  pub AreStored-stored : (m : MonitorOrScraper) (s : System Json) → Inv s → AreStored (stored m s)
  AreStored-stored monitor s h = h.monitors
  AreStored-stored scraper s h = h.scrapers

  pub Inv-set_stored :
      (m : MonitorOrScraper) (map : Map StoredObject) (s : System Json)
      → Inv s
      → AreStored map
      → Inv (set_stored m map s)
  Inv-set_stored monitor map s h a = record {
    monitors = a;
    scrapers = h.scrapers;
    unverified = h.unverified;
    uncancelled = h.uncancelled;
  }
  Inv-set_stored scraper map s h a = record {
    monitors = h.monitors;
    scrapers = a;
    unverified = h.unverified;
    uncancelled = h.uncancelled;
  }

  -- The object for a key, changed in place.
  pub Inv-assign :
      (m : MonitorOrScraper) (k : String) (obj : StoredObject) (s : System Json)
      → Inv s
      → IsStored k obj
      → Inv (set_stored m (assign k obj (stored m s)) s)
  Inv-assign m k obj s h p =
      Inv-set_stored m _ s h (AreStored-assign k obj (stored m s) (AreStored-stored m s h) p)

  pub IsStored-find :
      (m : MonitorOrScraper) (k : String) (obj : StoredObject) (s : System Json)
      → Inv s
      → find k (stored m s) ≡ some obj
      → IsStored k obj
  IsStored-find m k obj s h e =
      All-find IsStored k obj (stored m s) (AreStored-stored m s h).entries e

  pub Inv-start : (p : Pending) (s : System Json) → Inv s → IsUnverified p → Inv (start p s)
  Inv-start p s h u = record {
    monitors = h.monitors;
    scrapers = h.scrapers;
    unverified = (u, h.unverified);
    uncancelled = h.uncancelled;
  }
