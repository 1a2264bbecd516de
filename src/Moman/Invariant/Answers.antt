-- ===== src/Moman/Invariant/Answers.antt =====
-- The branches of a call by what each leaves, and answers and the invariant.
use kekmonitors_cpp.Prelude.{
  ℕ, String, ◌≡◌, refl, Bool, true, false, Option, none, some, List, if◌then◌else◌, Bool-cases,
  Option-cases, inl, inr, get_elem?,
}
use kekmonitors_cpp.Prelude.Outcome.{Exn, Outcome, done, throws, undefined, Try-cases}
use kekmonitors_cpp.Core.Bimap.{BimapApi}
use kekmonitors_cpp.Json.{JsonApi}
use kekmonitors_cpp.Msg.Response.{Response}
use kekmonitors_cpp.Moman.State.{Completion, Callback, direct, half, System}
use kekmonitors_cpp.Moman.Reply.{
  joint_response, write_response, complete, check_for_completion, call_back,
}
use kekmonitors_cpp.Moman.Add.{Registered, query_exception, not_registered, registered}
use kekmonitors_cpp.Moman.Invariant.Base.{Inv, Ensures}

module _ {Json : Type 0} where
  pub Inv-write_response :
      (c : ℕ) (r : Response Json) (s : System Json) → Inv s → Inv (write_response c r s)
  unfolding write_response
  Inv-write_response c r s h = record {
    monitors = h.monitors;
    scrapers = h.scrapers;
    unverified = h.unverified;
    uncancelled = h.uncancelled;
  }

-- A call that branches keeps what each branch keeps.
pub Option-rule :
    {A S : Type 0} (P : S → Type 0) (o : Option A) (n : S) (f : A → S)
    → P n
    → ((a : A) → o ≡ some a → P (f a))
    → P (elim o [ none ↦ n | some a ↦ f a ])
Option-rule P none n f hn hf = hn
Option-rule P (some a) n f hn hf = hf a refl

pub Outcome-rule :
    {A S : Type 0} (P : Outcome S → Type 0) (o : Outcome A) (s : S) (f : A → Outcome S)
    → ((e : Exn) → P (throws e s))
    → (o ≡ undefined → P undefined)
    → ((a : A) → o ≡ done a → P (f a))
    → P (elim o [ throws e _ ↦ throws e s | undefined ↦ undefined | done a ↦ f a ])
Outcome-rule P (throws e a) s f ht hu hf = ht e
Outcome-rule P undefined s f ht hu hf = hu refl
Outcome-rule P (done a) s f ht hu hf = hf a refl

pub if-rule :
    {S : Type 0} (P : S → Type 0) (c : Bool) (x y : S) → P x → P y → P (if c then x else y)
if-rule P true x y hx hy = hx
if-rule P false x y hx hy = hy

pub if-cases :
    {S : Type 0} (P : S → Type 0) (c : Bool) (x y : S)
    → (c ≡ true → P x)
    → (c ≡ false → P y)
    → P (if c then x else y)
if-cases P true x y hx hy = hx refl
if-cases P false x y hx hy = hy refl

pub Registered-rule :
    {S : Type 0} (P : S → Type 0) (r : Registered) (q : String → S) (n t : S) (f : String → S)
    → ((what : String) → P (q what))
    → P n
    → P t
    → ((path : String) → r ≡ registered (some path) → P (f path))
    → P (elim r [
      | query_exception what ↦ q what
      | not_registered ↦ n
      | registered none ↦ t
      | registered (some path) ↦ f path
    ])
Registered-rule P (query_exception what) q n t f hq hn ht hf = hq what
Registered-rule P not_registered q n t f hq hn ht hf = hn
Registered-rule P (registered none) q n t f hq hn ht hf = ht
Registered-rule P (registered (some path)) q n t f hq hn ht hf = hf path refl

module _ {Json M : Type 0} ⦃J : JsonApi Json⦄ ⦃b : BimapApi M⦄ (errors : M) where
  -- A response changes only what was written and the completions.
  pub call_back_cases :
      (P : System Json → Type 0) (cb : Callback) (r : Response Json) (s : System Json)
      → P s
      → ((c : ℕ) (x : Response Json) → P (write_response c x s))
      → ((cs : List (Completion Json)) → P (record s { completions = cs }))
      → Ensures P (call_back errors cb r s)
  unfolding call_back check_for_completion complete
  call_back_cases P (direct c) r s same written changed = written c r
  call_back_cases P (half id) r s same written changed =
      elim (Option-cases (get_elem? s.completions id)) [
        | inl e ↦ rw (e, check_for_completion) tt
        | inr (c, e) ↦ elim (Bool-cases c.both_completed) [
          | inl second ↦ elim (Try-cases (joint_response errors c.joint c.first_response r)) [
            | inl (x, q) ↦ rw (e, check_for_completion) (rw second (rw (q, complete) same))
            | inr (a, q) ↦
                rw (e, check_for_completion) (rw second (rw (q, complete) (written c.connection a)))
          ]
          | inr first ↦ rw (e, check_for_completion) (rw first (changed _))
        ]
      ]

  pub Inv-call_back :
      (cb : Callback) (r : Response Json) (s : System Json)
      → Inv s
      → Ensures Inv (call_back errors cb r s)
  Inv-call_back cb r s h =
      call_back_cases Inv cb r s h (λ c x. Inv-write_response c x s h)
        (λ cs. record {
          monitors = h.monitors;
          scrapers = h.scrapers;
          unverified = h.unverified;
          uncancelled = h.uncancelled;
        })
