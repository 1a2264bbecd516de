-- ===== src/Moman/OneAnswer/Losses.antt =====
-- What a round of the loop can leave without an answer.
use kekmonitors_cpp.Prelude.{Bool, false, ℕ, ◌≡◌, refl, none, some, get_elem?, remove_at}
use kekmonitors_cpp.Prelude.Outcome.{Outcome, done, throws, undefined}
use kekmonitors_cpp.Core.Codes.{monitor, scraper, ErrorCode, is_error}
use kekmonitors_cpp.Moman.State.{
  Pending, posted, add_wait, stop_write, stop_read, verify_wait, verify_write, verify_read, System,
}
use kekmonitors_cpp.Moman.Loop.{Event, accepts, receives, ends}
use kekmonitors_cpp.Moman.Invariant.Base.{Ensures}
use kekmonitors_cpp.Moman.OneAnswer.Handlers.{is_dropped}

-- Every connection can be answered once, and none must be.
abbrev pub one_each : ℕ → ℕ
one_each c = 1

abbrev pub none_each : ℕ → ℕ
none_each c = 0

-- What a call leaves that returns.
abbrev pub Leaves : {S : Type 0} → (S → Type 0) → Outcome S → Type 0
Leaves P (done s) = P s
Leaves P (throws e s) = Unit
Leaves P undefined = Unit

pub Leaves-Ensures : {S : Type 0} (P : S → Type 0) (o : Outcome S) → Ensures P o → Leaves P o
Leaves-Ensures P (done s) h = h
Leaves-Ensures P (throws e s) h = tt
Leaves-Ensures P undefined h = tt

module _ {Json : Type 0} where
  -- Whether the end of the operation answers nobody although its handler holds a callback.
  abbrev pub is_dropped_end : Pending → ErrorCode → System Json → Bool
  is_dropped_end (add_wait t m k cb) ec s = is_dropped ec m k s
  is_dropped_end _ ec s = false

  pub is_dropped_end-take :
      (n : ℕ) (p : Pending) (ec : ErrorCode) (s : System Json)
      → is_dropped_end p ec (record s { pending = remove_at s.pending n }) ≡ is_dropped_end p ec s
  is_dropped_end-take n (add_wait t monitor k cb) ec s = refl
  is_dropped_end-take n (add_wait t scraper k cb) ec s = refl
  is_dropped_end-take n (posted m id) ec s = refl
  is_dropped_end-take n (stop_write m k cb ep command) ec s = refl
  is_dropped_end-take n (stop_read cb) ec s = refl
  is_dropped_end-take n (verify_wait t m path k f) ec s = refl
  is_dropped_end-take n (verify_write m path k f) ec s = refl
  is_dropped_end-take n (verify_read m path k f) ec s = refl

  -- Whether the round gives up a connection: it could not be accepted or read, or its callback is
  -- dropped.
  abbrev pub gives_up : Event Json → System Json → Bool
  gives_up (accepts err) s = is_error err
  gives_up (receives n err cmd) s = is_error err
  gives_up (ends n e) s = elim (get_elem? s.pending n) [
    | none ↦ false
    | some p ↦ is_dropped_end p e.error s
  ]
  gives_up _ s = false
