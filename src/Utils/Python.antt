-- ===== src/Utils/Python.antt =====
-- `getPythonExecutable` of src/lib/utils.cpp, with the path that it keeps.
use Prim.Native.String.{◌++◌, count}
use mathlib.Core.List.{Memᴰ}
use mathlib.Core.List.Memᴰ
use kekmonitors_cpp.Prelude.{
  String, ◌≡◌, refl, Bool, true, false, Option, none, some, List, [], ◌∷◌, ltb, str_eq,
  if◌then◌else◌, Bool-cases, Option-cases, inl, inr, arith, subst,
}
use kekmonitors_cpp.Prelude.Outcome.{Outcome, done, throws, undefined, no_python}
use kekmonitors_cpp.Text.{begins, drop, take}
use kekmonitors_cpp.Text.Laws.{take-begins}

-- `version[7] == '3'`, `none` where the position is past the end; at the end there is a NUL.
unfoldable pub is_python_3 : String → Option Bool
unfolding begins drop
is_python_3 version = if ltb (count version) 7 then none else some (begins (drop 7 version) "3")

-- The loop over the names. `first_line` is the first line that a command line prints, `none` where
-- `bp::system` throws a `process_error`. The state is the static variable.
unfoldable pub find_python : (String → Option String) → List String → String → Outcome String
unfolding is_python_3
find_python first_line [] cached = throws no_python cached
find_python first_line (python_exe ∷ rest) cached = elim (first_line (python_exe ++ " --version")) [
  | none ↦ find_python first_line rest cached
  | some version ↦ elim (is_python_3 version) [
    | none ↦ undefined
    | some is_3 ↦ if is_3 then done python_exe else find_python first_line rest cached
  ]
]

-- The path that is returned is the one that is kept.
unfoldable pub get_python_executable : (String → Option String) → String → Outcome String
unfolding find_python
get_python_executable first_line cached =
    if str_eq cached ""
    then find_python first_line ("python" ∷ "python3" ∷ []) cached
    else done cached

find_python_lem :
    (first_line : String → Option String) (names : List String) (cached path : String)
    → find_python first_line names cached ≡ done path
    → Memᴰ path names
      × (version : String) × (first_line (path ++ " --version") ≡ some version)
      × (is_python_3 version ≡ some true)
unfolding find_python
find_python_lem first_line [] cached path h = absurd (ground (arith, h))
find_python_lem first_line (exe ∷ rest) cached path h =
    elim (Option-cases (first_line (exe ++ " --version"))) [
      | inl e ↦
          let next : find_python first_line rest cached ≡ done path = ground (arith, h, e) in
          let found = find_python_lem first_line rest cached path next in
          (Memᴰ.tail found.0, found.1, found.2, found.3)
      | inr (version, e) ↦ elim (Option-cases (is_python_3 version)) [
        | inl n ↦ absurd (ground (arith, h, e, n))
        | inr (b, n) ↦ elim (Bool-cases b) [
          | inl y ↦
              let same : exe ≡ path = ground (arith, h, e, n, y) in
              subst
                (λ q.
                  Memᴰ q (exe ∷ rest)
                  × (line : String) × (first_line (q ++ " --version") ≡ some line)
                  × (is_python_3 line ≡ some true))
                same (Memᴰ.head refl, version, e, rw⁻¹ y n)
          | inr y ↦
              let next : find_python first_line rest cached ≡ done path =
                ground (arith, h, e, n, y) in
              let found = find_python_lem first_line rest cached path next in
              (Memᴰ.tail found.0, found.1, found.2, found.3)
        ]
      ]
    ]

named_lem : (path : String) → Memᴰ path ("python" ∷ "python3" ∷ []) → str_eq path "" ≡ false
named_lem path (Memᴰ.head e) = rw e refl
named_lem path (Memᴰ.tail (Memᴰ.head e)) = rw e refl
named_lem path (Memᴰ.tail (Memᴰ.tail m)) = absurd (Memᴰ.not-nil m)

-- A version that passes the test has a "3" at the place 7, that is, behind its first seven characters.
is_python_3-take :
    (version : String) → is_python_3 version ≡ some true → take 1 (drop 7 version) ≡ "3"
unfolding is_python_3
is_python_3-take version h = take-begins (drop 7 version) "3" (ground (arith, h))

-- Where no path is kept yet, one that is returned is "python" or "python3", and that command prints a
-- version whose character behind the first seven is a "3"; it is not empty, so that all later calls
-- return it, whatever the commands print then.
pub get_python_executable_lem :
    (first_line later : String → Option String) (path : String)
    → get_python_executable first_line "" ≡ done path
    → Memᴰ path ("python" ∷ "python3" ∷ [])
      × (version : String) × (first_line (path ++ " --version") ≡ some version)
      × (take 1 (drop 7 version) ≡ "3")
      × (str_eq path "" ≡ false)
      × (get_python_executable later path ≡ done path)
unfolding get_python_executable
get_python_executable_lem first_line later path h =
    let (listed, version, printed, is_3) =
      find_python_lem first_line ("python" ∷ "python3" ∷ []) "" path h in
    let named = named_lem path listed in
    (listed, version, printed, is_python_3-take version is_3, named, rw named refl)
