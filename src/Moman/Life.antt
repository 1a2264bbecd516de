-- ===== src/Moman/Life.antt =====
-- The life of a stored monitor or scraper, as the source means it: what a handler of
-- src/bin/moman may do to the object that is stored under a class name.
pub mod Handlers
pub mod Commands
pub mod Handling
pub mod Rounds
use kekmonitors_cpp.Prelude.{
  ℕ, String, ◌≡◌, refl, ◌⊎◌, true, false, Option, none, some, [], ◌∷◌, Map, find, assign, erase,
  emplace, find-erase, find-assign, find-emplace, is_some, arith, str_eq, eq_iff, subst, sym,
  Bool-cases, Option-cases, inl, inr,
}
use kekmonitors_cpp.Moman.State.{Process, StoredObject, new_stored_object}
use kekmonitors_cpp.Moman.Add.{with_process, store_process}
use kekmonitors_cpp.Moman.Processes.{remove_stored_socket, remove_stored_process}
use kekmonitors_cpp.Moman.Terminate.{survivors}
use kekmonitors_cpp.Moman.Invariant.Entries.{IsDistinct}
use kekmonitors_cpp.Moman.Invariant.Handlers.{find-survivors}

-- What a socket does to the object under a class name.
pub data SocketLife : Option StoredObject → Option StoredObject → Type 0 where
  -- it appeared, or was replaced
  found :
      (obj : StoredObject) (path : String)
      → SocketLife (some obj) (some (record obj { endpoint = some path }))
  -- it is given up; without a process the object goes with it
  unlinked :
      (obj : StoredObject)
      → is_some obj.process ≡ true
      → SocketLife (some obj) (some (record obj { endpoint = none }))
  removed : (obj : StoredObject) → is_some obj.process ≡ false → SocketLife (some obj) none

-- One change of the object under the class name `k`.
pub data Life (k : String) : Option StoredObject → Option StoredObject → Type 0 where
  -- its process was started, where nothing was stored
  added : (p : Process) (t : ℕ) → Life k none (some (with_process p t (new_stored_object k)))
  -- the addition is over
  settled : (obj : StoredObject) → Life k (some obj) (some (record obj { is_being_added = false }))
  -- it is asked to stop, over its socket
  stopping :
      (obj : StoredObject)
      → is_some obj.endpoint ≡ true
      → Life k (some obj) (some (record obj { is_being_stopped = true }))
  -- its process is given up; without a socket the object goes with it
  bereft :
      (obj : StoredObject)
      → is_some obj.endpoint ≡ true
      → Life k (some obj) (some (record obj { process = none }))
  ended : (obj : StoredObject) → is_some obj.endpoint ≡ false → Life k (some obj) none
  linked : {a b : Option StoredObject} → SocketLife a b → Life k a b

-- A relation of what was stored under a class name and what is stored then.
abbrev pub Relation : Type 1
Relation = String → Option StoredObject → Option StoredObject → Type 0

abbrev pub Same : Relation
Same k a b = a ≡ b

-- One change at most.
abbrev pub Once : Relation
Once k a b = (a ≡ b) ⊎ Life k a b

-- Any number of changes by sockets.
pub data SocketLives (k : String) (a : Option StoredObject) : Option StoredObject → Type 0 where
  unchanged : SocketLives k a a
  changed : {b c : Option StoredObject} → SocketLives k a b → SocketLife b c → SocketLives k a c

pub SocketLives-append :
    {k : String} {a b c : Option StoredObject}
    → SocketLives k a b
    → SocketLives k b c
    → SocketLives k a c
SocketLives-append l unchanged = l
SocketLives-append l (changed m x) = changed (SocketLives-append l m) x

pub SocketLives-one : (k : String) (a b : Option StoredObject) → SocketLife a b → SocketLives k a b
SocketLives-one k a b x = changed unchanged x

-- The relation holds at each class name.
abbrev pub AllLive : Relation → Map StoredObject → Map StoredObject → Type 0
AllLive R m n = (k : String) → R k (find k m) (find k n)

module _ (R : Relation) (same : (k : String) (a : Option StoredObject) → R k a a) where
  -- A change of the map at one key.
  AllLive-at :
      (j : String) (a b : Option StoredObject) (m n : Map StoredObject)
      → find j m ≡ a
      → R j a b
      → find j n ≡ b
      → ((k : String) → str_eq j k ≡ false → find k n ≡ find k m)
      → AllLive R m n
  AllLive-at j a b m n e x f rest k = elim (Bool-cases (str_eq j k)) [
    | inl hit ↦
        let key : j ≡ k = (eq_iff j k).0 hit in
        subst (λ i. R i (find i m) (find i n)) key (rw e (rw f x))
    | inr miss ↦ rw (rest k miss) (same k (find k m))
  ]

  pub AllLive-assign :
      (j : String) (obj new : StoredObject) (m : Map StoredObject)
      → find j m ≡ some obj
      → R j (some obj) (some new)
      → AllLive R m (assign j new m)
  AllLive-assign j obj new m e x =
      AllLive-at j (some obj) (some new) m (assign j new m) e x
        (ground (arith, e, eq_iff j j, find-assign j j new m))
        (λ k miss. ground (arith, miss, find-assign j k new m))

  AllLive-erase :
      (j : String) (obj : StoredObject) (m : Map StoredObject)
      → find j m ≡ some obj
      → R j (some obj) none
      → AllLive R m (erase j m)
  AllLive-erase j obj m e x =
      AllLive-at j (some obj) none m (erase j m) e x (ground (arith, eq_iff j j, find-erase j j m))
        (λ k miss. ground (arith, miss, find-erase j k m))

  pub AllLive-remove_stored_socket :
      (lift : (k : String) (a b : Option StoredObject) → SocketLife a b → R k a b) (j : String)
      (m : Map StoredObject)
      → AllLive R m (remove_stored_socket j m)
  unfolding remove_stored_socket
  AllLive-remove_stored_socket lift j m = elim (Option-cases (find j m)) [
    | inl e ↦ rw (e, remove_stored_socket) (λ k. same k (find k m))
    | inr (obj, e) ↦ elim (Bool-cases (is_some obj.process)) [
      | inl kept ↦
          rw (e, remove_stored_socket)
            (rw kept (AllLive-assign j obj _ m e (lift j _ _ (unlinked obj kept))))
      | inr gone ↦
          rw (e, remove_stored_socket)
            (rw gone (AllLive-erase j obj m e (lift j _ _ (removed obj gone))))
    ]
  ]

pub Once-same : (k : String) (a : Option StoredObject) → Once k a a
Once-same k a = inl refl

pub Once-socket : (k : String) (a b : Option StoredObject) → SocketLife a b → Once k a b
Once-socket k a b x = inr (linked x)

pub AllLive-store_process :
    (j : String) (p : Process) (t : ℕ) (m : Map StoredObject)
    → find j m ≡ none
    → AllLive Once m (store_process j p t m)
unfolding store_process
AllLive-store_process j p t m e =
    let new = with_process p t (new_stored_object j) in
    rw (e, store_process)
      (AllLive-at Once Once-same j none (some new) m (emplace j new m) e (inr (added p t))
        (ground (arith, e, eq_iff j j, find-emplace j j new m))
        (λ k miss. ground (arith, miss, find-emplace j k new m)))

pub AllLive-remove_stored_process :
    (j : String) (m : Map StoredObject) → AllLive Once m (remove_stored_process j m)
unfolding remove_stored_process
AllLive-remove_stored_process j m = elim (Option-cases (find j m)) [
  | inl e ↦ rw (e, remove_stored_process) (λ k. inl refl)
  | inr (obj, e) ↦ elim (Bool-cases (is_some obj.endpoint)) [
    | inl kept ↦
        rw (e, remove_stored_process)
          (rw kept (AllLive-assign Once Once-same j obj _ m e (inr (bereft obj kept))))
    | inr gone ↦
        rw (e, remove_stored_process)
          (rw gone (AllLive-erase Once Once-same j obj m e (inr (ended obj gone))))
  ]
]

find-survivors_miss :
    (j k : String) (obj : StoredObject) (m : Map StoredObject)
    → str_eq j k ≡ false
    → find k (survivors ((j, obj) ∷ m)) ≡ find k (survivors m)
unfolding find
find-survivors_miss j k obj m e = ground (arith, e)

-- `terminateProcesses` takes each object's process.
pub AllLive-survivors : (m : Map StoredObject) → IsDistinct m → AllLive Once m (survivors m)
unfolding find
AllLive-survivors [] d k = inl refl
AllLive-survivors ((j, obj) ∷ m) d k = elim (Bool-cases (str_eq j k)) [
  | inl hit ↦
      let same : j ≡ k = (eq_iff j k).0 hit in
      let gone : find k (survivors m) ≡ none =
        find-survivors k m (subst (λ i. find i m ≡ none) same d.0) in
      rw hit (elim (Option-cases obj.process) [
        | inl q ↦
            let kept : find k (survivors ((j, obj) ∷ m)) ≡ some obj = ground (arith, q, hit) in
            rw kept (inl refl)
        | inr (p, q) ↦ elim (Bool-cases (is_some obj.endpoint)) [
          | inl free ↦
              let bare : find k (survivors ((j, obj) ∷ m)) ≡ some (record obj { process = none }) =
                ground (arith, q, hit, free) in
              rw bare (inr (bereft obj free))
          | inr free ↦
              let out : find k (survivors ((j, obj) ∷ m)) ≡ none =
                ground (arith, q, hit, free, gone) in
              rw out (inr (ended obj free))
        ]
      ])
  | inr miss ↦ rw (find-survivors_miss j k obj m miss) (rw miss (AllLive-survivors m d.1 k))
]
