-- ===== src/Moman/ConfigPath.antt =====
-- Which folder the manager reads off the path of a configuration file.
use Prim.Native.String.{◌++◌, count, [], ◌∷◌}
use text.Mathlib.TextLemmas.{
  cons-append, nil-append, length-cons, length-nil, length-append, append_assoc, append-nil,
}
use kekmonitors_cpp.Prelude.{
  ℕ, zero, suc, ◌+◌, ◌<◌, ◌-◌, String, ◌≡◌, refl, true, false, Option, none, some, arith, ◌∙◌, ap,
  subst,
}
use kekmonitors_cpp.Text.{begins, rfind, drop, take}
use kekmonitors_cpp.Text.Laws.{drop-append, begins-append, take-append}
use kekmonitors_cpp.Moman.Configs.{scan, config_sub_dir}

-- No position inside a text without "/" is one.
begins-drop-none :
    (u v : String) (j : ℕ) → rfind "/" u ≡ none → j < count u → begins (drop j (u ++ v)) "/" ≡ false
unfolding begins rfind drop
begins-drop-none [] v j h p = absurd (ground (arith, length-nil))
begins-drop-none (c ∷ u) v zero h p = rw (cons-append c u v) (ground arith)
begins-drop-none (c ∷ u) v (suc j) h p =
    rw (cons-append c u v) (begins-drop-none u v j (ground arith) (ground (arith, length-cons c u)))

drop-shift : (a w : String) (j : ℕ) → drop (count a + j) (a ++ w) ≡ drop j w
unfolding drop
drop-shift [] w j = rw (nil-append w, length-nil) (ground arith)
drop-shift (c ∷ a) w j =
    let next : suc (count a) + j ≡ suc (count a + j) = omega arith in
    rw (cons-append c a w, length-cons c a) (rw next (drop-shift a w j))

scan-add :
    (path : String) (i n : ℕ) (last : Option ℕ)
    → ((j : ℕ) → j < n → begins (drop (i + j) path) "/" ≡ false)
    → scan path (i + n) last ≡ scan path i last
unfolding scan
scan-add path i zero last h = ground arith
scan-add path i (suc n) last h =
    let next : i + suc n ≡ suc (i + n) = omega arith in
    let rest = scan-add path i n last (λ j p. h j (omega arith)) in
    rw (next, scan) (rw (h n (omega arith)) rest)

-- The loop passes a part of the path without "/".
scan-skip :
    (a u v : String) (last : Option ℕ)
    → rfind "/" u ≡ none
    → scan (a ++ (u ++ v)) (count a + count u) last ≡ scan (a ++ (u ++ v)) (count a) last
scan-skip a u v last h =
    scan-add (a ++ (u ++ v)) (count a) (count u) last
      (λ j p. rw (drop-shift a (u ++ v) j) (begins-drop-none u v j h p))

begins-drop_slash : (a v : String) → begins (drop (count a) (a ++ ("/" ++ v))) "/" ≡ true
unfolding begins
begins-drop_slash a v = rw (drop-append a ("/" ++ v), begins-append "/" v) refl

scan-slash_none :
    (a v : String)
    → scan (a ++ ("/" ++ v)) (suc (count a)) none
      ≡ scan (a ++ ("/" ++ v)) (count a) (some (count a))
unfolding scan
scan-slash_none a v = rw (begins-drop_slash a v) refl

scan-slash_some :
    (a v : String) (last : ℕ)
    → scan (a ++ ("/" ++ v)) (suc (count a)) (some last)
      ≡ some (take (last - count a - 1) (drop (count a + 1) (a ++ ("/" ++ v))))
unfolding scan
scan-slash_some a v last = rw (begins-drop_slash a v) refl

scan-part :
    (a u v : String) (last : Option ℕ)
    → rfind "/" u ≡ none
    → scan (a ++ ("/" ++ (u ++ v))) (suc (count a) + count u) last
      ≡ scan (a ++ ("/" ++ (u ++ v))) (suc (count a)) last
scan-part a u v last h =
    let whole = append_assoc a "/" (u ++ v) in
    let before : count (a ++ "/") ≡ suc (count a) = length-append a "/" ∙ omega arith in
    subst
      (λ (path : String). scan path (suc (count a) + count u) last ≡ scan path (suc (count a)) last)
      whole
      (subst
        (λ (n : ℕ).
          scan ((a ++ "/") ++ (u ++ v)) (n + count u) last ≡ scan ((a ++ "/") ++ (u ++ v)) n last)
        before (scan-skip (a ++ "/") u v last h))

-- The file's name and the last "/" are passed.
scan-file :
    (a file : String)
    → rfind "/" file ≡ none
    → config_sub_dir (a ++ ("/" ++ file)) ≡ scan (a ++ ("/" ++ file)) (count a) (some (count a))
unfolding config_sub_dir
scan-file a file h =
    let path = a ++ ("/" ++ file) in
    let length : count path ≡ suc (count a) + count file =
      length-append a ("/" ++ file)
      ∙ (ap (λ n. count a + n) (length-append "/" file) ∙ omega arith) in
    let part : scan path (suc (count a) + count file) none ≡ scan path (suc (count a)) none =
      subst
        (λ (t : String).
          scan (a ++ ("/" ++ t)) (suc (count a) + count file) none
          ≡ scan (a ++ ("/" ++ t)) (suc (count a)) none)
        (append-nil file) (scan-part a file [] none h) in
    ap (λ n. scan path n none) length ∙ (part ∙ scan-slash_none a file)

-- The folder of a configuration file is the part of its path between the last two "/".
pub config_sub_dir_lem :
    (dir sub file : String)
    → rfind "/" sub ≡ none
    → rfind "/" file ≡ none
    → config_sub_dir (dir ++ ("/" ++ (sub ++ ("/" ++ file)))) ≡ some sub
config_sub_dir_lem dir sub file p q =
    let a = dir ++ ("/" ++ sub) in
    let rest = sub ++ ("/" ++ file) in
    let path = dir ++ ("/" ++ rest) in
    let whole : a ++ ("/" ++ file) ≡ path =
      append_assoc dir ("/" ++ sub) ("/" ++ file)
      ∙ ap (λ t. dir ++ t) (append_assoc "/" sub ("/" ++ file)) in
    let length : count a ≡ suc (count dir) + count sub =
      length-append dir ("/" ++ sub)
      ∙ (ap (λ n. count dir + n) (length-append "/" sub) ∙ omega arith) in
    let file_passed : config_sub_dir path ≡ scan path (count a) (some (count a)) =
      subst (λ (t : String). config_sub_dir t ≡ scan t (count a) (some (count a))) whole
        (scan-file a file q) in
    let name : drop (count dir + 1) path ≡ rest =
      drop-shift dir ("/" ++ rest) 1 ∙ drop-append "/" rest in
    let size : count a - count dir - 1 ≡ count sub = omega (arith, length) in
    file_passed
    ∙ (ap (λ n. scan path n (some (count a))) length
        ∙ (scan-part dir sub ("/" ++ file) (some (count a)) p
            ∙ (scan-slash_some dir rest (count a)
                ∙ rw (name, size) (rw (take-append sub ("/" ++ file)) refl))))

-- In a path with only one "/" the loop finds no folder and reads outside the path.
pub config_sub_dir_outside :
    (sub file : String)
    → rfind "/" sub ≡ none
    → rfind "/" file ≡ none
    → config_sub_dir (sub ++ ("/" ++ file)) ≡ none
unfolding scan
config_sub_dir_outside sub file p q =
    let path = sub ++ ("/" ++ file) in
    let start : 0 + count sub ≡ count sub = omega arith in
    let passed = scan-add path 0 (count sub) (some (count sub)) (λ j h.
      let here : 0 + j ≡ j = omega arith in rw here (begins-drop-none sub ("/" ++ file) j p h)) in
    scan-file sub file q ∙ subst (λ (n : ℕ). scan path n (some (count sub)) ≡ none) start passed
