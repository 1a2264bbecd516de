-- ===== src/Moman/Report.antt =====
-- What `onGetStatus` of src/bin/moman/callbacks.cpp reports.
use kekmonitors_cpp.Prelude.{
  String, ◌≡◌, refl, Bool, true, ◌||◌, Option, none, some, [], ◌∷◌, Map, find, arith, eq_iff,
  str_eq, ◌∙◌, ap, sym, subst, false, if◌then◌else◌, Bool-cases, Option-cases, inl, inr,
}
use kekmonitors_cpp.Json.{JsonApi}
use kekmonitors_cpp.Moman.State.{StoredObject}
use kekmonitors_cpp.Moman.Status.{process_json, monitored, status_response}

-- No key stands twice in the map, and each object is stored under its class name.
abbrev pub IsTable : Map StoredObject → Type 0
IsTable [] = Unit
IsTable ((k, obj) ∷ m) = (obj.class_name ≡ k) × (find k m ≡ none) × IsTable m

module _ {Json : Type 0} ⦃J : JsonApi Json⦄ where
  -- What is reported for an object, and the default.
  abbrev pub process_entry : Option StoredObject → Option Json → Option Json
  process_entry none old = old
  process_entry (some obj) old = elim obj.process [ none ↦ old | some p ↦ some (process_json p) ]

  abbrev pub socket_entry : Option StoredObject → Option Json → Option Json
  socket_entry none old = old
  socket_entry (some obj) old = elim obj.endpoint [ none ↦ old | some ep ↦ some (J.of_string ep) ]

  abbrev IsObject : Json → Type 0
  IsObject j = (J.is_null j || J.is_object j) ≡ true

  IsObject-put : (j : Json) (k : String) (v : Json) → IsObject j → IsObject (J.put j k v)
  IsObject-put j k v h = ground (arith, J.is_object-put j k v h)

  -- One round of the loop.
  abbrev with_process : StoredObject → Json → Json
  with_process obj processes = elim obj.process [
    | none ↦ processes
    | some p ↦ J.put processes obj.class_name (process_json p)
  ]

  abbrev with_socket : StoredObject → Json → Json
  with_socket obj sockets = elim obj.endpoint [
    | none ↦ sockets
    | some ep ↦ J.put sockets obj.class_name (J.of_string ep)
  ]

  with_process_lem :
      (obj : StoredObject) (processes : Json) (k : String)
      → IsObject processes
      → IsObject (with_process obj processes)
        × (J.at (with_process obj processes) k
            ≡ process_entry (if str_eq obj.class_name k then some obj else none) (J.at processes k))
  with_process_lem obj processes k h = elim (Option-cases obj.process) [
    | inl e ↦ rw e (h, ground (arith, e))
    | inr (p, e) ↦ rw e (
      IsObject-put processes obj.class_name (process_json p) h,
      ground (arith, e, J.at-put processes obj.class_name (process_json p) k h),
    )
  ]

  with_socket_lem :
      (obj : StoredObject) (sockets : Json) (k : String)
      → IsObject sockets
      → IsObject (with_socket obj sockets)
        × (J.at (with_socket obj sockets) k
            ≡ socket_entry (if str_eq obj.class_name k then some obj else none) (J.at sockets k))
  with_socket_lem obj sockets k h = elim (Option-cases obj.endpoint) [
    | inl e ↦ rw e (h, ground (arith, e))
    | inr (ep, e) ↦ rw e (
      IsObject-put sockets obj.class_name (J.of_string ep) h,
      ground (arith, e, J.at-put sockets obj.class_name (J.of_string ep) k h),
    )
  ]

  monitored_lem :
      (m : Map StoredObject) (processes sockets : Json) (k : String)
      → IsTable m
      → IsObject processes
      → IsObject sockets
      → (J.at (monitored m processes sockets).0 k ≡ process_entry (find k m) (J.at processes k))
        × (J.at (monitored m processes sockets).1 k ≡ socket_entry (find k m) (J.at sockets k))
  unfolding monitored find
  monitored_lem [] processes sockets k t p s = (refl, refl)
  monitored_lem ((j, obj) ∷ m) processes sockets k t p s =
      let ps = with_process_lem obj processes k p in
      let ss = with_socket_lem obj sockets k s in
      let rest =
        monitored_lem m (with_process obj processes) (with_socket obj sockets) k t.2 ps.0 ss.0 in
      let listed = λ (c : Bool). if c then some obj else none in
      elim (Bool-cases (str_eq j k)) [
        | inl hit ↦
            let same : k ≡ j = ground (arith, hit, eq_iff j k) in
            let gone : find k m ≡ none = subst (λ i. find i m ≡ none) (sym same) t.1 in
            let named : str_eq obj.class_name k ≡ true = ap (λ c. str_eq c k) t.0 ∙ hit in
            rw hit (
              rest.0
                  ∙ ap (λ o. process_entry o (J.at (with_process obj processes) k)) gone
                  ∙ ps.1
                  ∙ ap (λ c. process_entry (listed c) (J.at processes k)) named,
              rest.1
                  ∙ ap (λ o. socket_entry o (J.at (with_socket obj sockets) k)) gone
                  ∙ ss.1
                  ∙ ap (λ c. socket_entry (listed c) (J.at sockets k)) named,
            )
        | inr miss ↦
            let named : str_eq obj.class_name k ≡ false = ap (λ c. str_eq c k) t.0 ∙ miss in
            rw miss (
              rest.0
                  ∙ ap (process_entry (find k m))
                      (ps.1 ∙ ap (λ c. process_entry (listed c) (J.at processes k)) named),
              rest.1
                  ∙ ap (socket_entry (find k m))
                      (ss.1 ∙ ap (λ c. socket_entry (listed c) (J.at sockets k)) named),
            )
      ]

  -- The status of a kind, for a map with no key twice whose objects stand under their class names: the
  -- payload has two entries, of which the first one has for each class name what is stored as
  -- its process, the second one its socket, and nothing for any other name.
  pub status_response_lem :
      (m : Map StoredObject)
      → IsTable m
      → (processes : Json) × (sockets : Json) × (J.at
            (status_response m).payload
            "monitored_processes"
          ≡ some processes)
        × (J.at (status_response m).payload "monitored_sockets" ≡ some sockets)
        × ((k : String) → J.at processes k ≡ process_entry (find k m) none)
        × ((k : String) → J.at sockets k ≡ socket_entry (find k m) none)
  unfolding status_response
  status_response_lem m t =
      let (ps, ss) = monitored m J.object J.object in
      let object : IsObject J.object = ground (arith, J.is_object-object) in
      let null : IsObject J.null = ground (arith, J.is_null-null) in
      let lem = λ (k : String). monitored_lem m J.object J.object k t object object in
      let first = J.put J.null "monitored_processes" ps in
      let h = IsObject-put J.null "monitored_processes" ps null in
      (
        ps,
        ss,
        J.at-put first "monitored_sockets" ss "monitored_processes" h
            ∙ J.at-put J.null "monitored_processes" ps "monitored_processes" null,
        J.at-put first "monitored_sockets" ss "monitored_sockets" h,
        (λ k. (lem k).0 ∙ ap (process_entry (find k m)) (J.at-object k)),
        (λ k. (lem k).1 ∙ ap (socket_entry (find k m)) (J.at-object k)),
      )
