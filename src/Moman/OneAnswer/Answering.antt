-- ===== src/Moman/OneAnswer/Answering.antt =====
-- The right to answer a connection: a callback holds it, and a joint command splits it.
use kekmonitors_cpp.Prelude.{
  ℕ, zero, suc, ◌+◌, ◌≤◌, ◌<◌, ◌≡◌, refl, true, false, none, some, List, [], ◌∷◌, ◌++◌, ◌==◌,
  length, get_elem?, set, arith, Bool-cases, Option-cases, inl, inr,
}
use kekmonitors_cpp.Prelude.Outcome.{Try-cases}
use kekmonitors_cpp.Core.Bimap.{BimapApi}
use kekmonitors_cpp.Json.{JsonApi}
use kekmonitors_cpp.Msg.Cmd.{Cmd}
use kekmonitors_cpp.Msg.Response.{Response, new_response}
use kekmonitors_cpp.Moman.State.{Callback, direct, half, Completion, Joint, System}
use kekmonitors_cpp.Moman.Reply.{
  joint_response, write_response, complete, check_for_completion, call_back, create_completion,
}
use kekmonitors_cpp.Moman.OneAnswer.Count.{
  as_number, opens, AreHalved-le, opens-append, AreHalved-append,
}
use kekmonitors_cpp.Moman.OneAnswer.Completing.{opens-same, opens-set, AreHalved-set, opens-close}
use kekmonitors_cpp.Moman.OneAnswer.Held.{Answered, Held, halves_at}

length-set {ℓ} : {A : Type ℓ} (l : List A) (i : ℕ) (v : A) → length (set l i v) ≡ length l
length-set [] i v = refl
length-set (x ∷ l) zero v = refl
length-set (x ∷ l) (suc i) v = omega (arith, length-set l i v)

length-append {ℓ} : {A : Type ℓ} (l m : List A) → length (l ++ m) ≡ length l + length m
length-append [] m = omega arith
length-append (x ∷ l) m = omega (arith, length-append l m)

module _ {Json : Type 0} where
  halves-call :
      (id : ℕ) (s : System Json) (l : ℕ)
      → halves_at (some (half id)) s l ≡ as_number (0 + id == l) + halves_at none s l
  halves-call id s l = ground arith

module _ {L B : ℕ → ℕ} {Json : Type 0} where
  pub Held-write_direct :
      (c : ℕ) (r : Response Json) (s : System Json)
      → Held L B (some (direct c)) s
      → Held L B none (write_response c r s)
  unfolding write_response
  Held-write_direct c r s n = record {
    kept = λ d. omega (arith, n.kept d);
    once = λ d. omega (arith, n.once d);
    fresh = λ d f. omega (arith, n.fresh d f);
    halved = n.halved;
    unposted = n.unposted;
    room = n.room;
  }

  Held-first :
      (id : ℕ) (k new : Completion Json) (s : System Json)
      → get_elem? s.completions id ≡ some k
      → k.both_completed ≡ false
      → new.both_completed ≡ true
      → new.connection ≡ k.connection
      → Held L B (some (half id)) s
      → Held L B none (record s { completions = set s.completions id new })
  Held-first id k new s e f t same n =
      let h = halves_at (some (half id)) s in
      let h' = halves_at none s in
      let one = halves-call id s in
      let open_same = λ (c : ℕ). opens-set h h' c 0 s.completions id k new e f t same one in
      record {
        kept = λ c. omega (arith, n.kept c, open_same c);
        once = λ c. omega (arith, n.once c, open_same c);
        fresh = λ c p. omega (arith, n.fresh c p, open_same c);
        halved = AreHalved-set h h' 0 s.completions id k new e f one n.halved;
        unposted = λ i p.
            omega (arith, one i, n.unposted i (omega (arith, length-set s.completions id new)));
        room = n.room;
      }

  Held-second :
      (id : ℕ) (k : Completion Json) (r : Response Json) (s : System Json)
      → get_elem? s.completions id ≡ some k
      → k.both_completed ≡ true
      → Held L B (some (half id)) s
      → Held L B none (write_response k.connection r s)
  unfolding write_response
  Held-second id k r s e t n =
      let h = halves_at (some (half id)) s in
      let h' = halves_at none s in
      let one = halves-call id s in
      let close = λ (c : ℕ). opens-close h h' c 0 s.completions id k e t one n.halved in
      record {
        kept = λ c. omega (arith, n.kept c, close c);
        once = λ c. omega (arith, n.once c, close c);
        fresh = λ c p. omega (arith, n.fresh c p, close c);
        halved = AreHalved-le h h' 0 s.completions (λ i _ _. omega (arith, one i)) n.halved;
        unposted = λ i p. omega (arith, one i, n.unposted i p);
        room = n.room;
      }

module _ {L B : ℕ → ℕ} {Json M : Type 0} ⦃J : JsonApi Json⦄ ⦃b : BimapApi M⦄ (errors : M) where
  pub Held-call_back :
      (cb : Callback) (r : Response Json) (s : System Json)
      → Held L B (some cb) s
      → Answered L B cb (call_back errors cb r s)
  unfolding call_back check_for_completion complete
  Held-call_back (direct c) r s n = Held-write_direct c r s n
  Held-call_back (half id) r s n = elim (Option-cases (get_elem? s.completions id)) [
    | inl e ↦ rw (e, check_for_completion) tt
    | inr (k, e) ↦ elim (Bool-cases k.both_completed) [
      | inl second ↦ elim (Try-cases (joint_response errors k.joint k.first_response r)) [
        | inl (x, q) ↦ rw (e, check_for_completion) (rw second (rw (q, complete) n))
        | inr (a, q) ↦
            rw (e, check_for_completion)
              (rw second (rw (q, complete) (Held-second id k a s e second n)))
      ]
      | inr first ↦
          rw (e, check_for_completion)
            (rw first (
              Held-first id k (record k { both_completed = true; first_response = r }) s e first
                refl refl n))
    ]
  ]

module _ {L B : ℕ → ℕ} {Json : Type 0} ⦃J : JsonApi Json⦄ where
  -- A joint command turns the connection's callback into the two halves of a new completion.
  pub Held-create_completion :
      (joint : Joint) (cmd : Cmd Json) (c : ℕ) (s : System Json)
      → Held L B (some (direct c)) s
      → Held L B none (create_completion joint cmd c s)
  unfolding create_completion
  Held-create_completion joint cmd c s n =
      let ks = s.completions in
      let new : Completion Json = record {
        both_completed = false;
        cmd = cmd;
        joint = joint;
        connection = c;
        first_response = new_response;
      } in
      let h = halves_at (some (direct c)) s in
      let t = create_completion joint cmd c s in
      let h' = halves_at none t in
      let old : (j : ℕ) → 0 ≤ j → j < 0 + length ks → h' j ≡ h j = λ j p q. ground arith in
      let last : h' (0 + length ks) ≡ 2 = ground (arith, n.unposted (length ks)) in
      let added : (d : ℕ) → opens d h' 0 (ks ++ new ∷ []) ≡ opens d h 0 ks + as_number (c == d) =
        λ d. ground (arith, opens-append d h' 0 ks new, opens-same h h' d 0 ks old, last) in
      let fewer : (j : ℕ) → 0 ≤ j → j < 0 + length ks → h' j ≤ h j =
        λ j p q. omega (arith, old j p q) in
      record {
        kept = λ d. ground (arith, n.kept d, added d);
        once = λ d. omega (arith, n.once d, added d);
        fresh = λ d f. omega (arith, n.fresh d f, added d);
        halved =
            AreHalved-append h' 0 ks new (AreHalved-le h h' 0 ks fewer n.halved)
              (omega (arith, last));
        unposted = λ i f. ground (arith, length-append ks (new ∷ []), n.unposted i);
        room = n.room;
      }
