-- ===== src/Utils/Files.antt =====
-- `getContentIfFileExistsElseCreate` of src/lib/utils.cpp, over an interface to std::filesystem and
-- std::fstream.
use Prim.Native.Char.{code}
use Prim.Native.String.{[], ◌∷◌}
use kekmonitors_cpp.Prelude.{
  String, ◌≡◌, refl, Bool, true, false, Option, none, some, ◌==◌, if◌then◌else◌,
}
use kekmonitors_cpp.Prelude.Outcome.{Try, returns, raises, system_error}
use kekmonitors_cpp.Text.{rfind, take}

pub record FileApi (S : Type 0) : Type 0 where
  -- `none` where it throws a `filesystem_error`
  pub create_directories : String → S → Option S
  pub is_regular_file : S → String → Bool
  -- whether the path names anything
  pub exists : S → String → Bool
  -- the content of a file that is opened for reading, `none` where it cannot be opened
  pub read : S → String → Option String
  -- a file is opened for writing, which empties or creates it, and the text is written; `none`
  -- where it cannot be opened
  pub write : String → String → S → Option S
  -- a file that is created is a regular one, which its owner may read
  pub is_regular_file-write :
      (path content : String) (s t : S)
      → exists s path ≡ false
      → write path content s ≡ some t
      → is_regular_file t path ≡ true
  pub read-write :
      (path content : String) (s t : S)
      → exists s path ≡ false
      → write path content s ≡ some t
      → read t path ≡ some content
  -- folders that are there are not created again
  pub create_directories-write :
      (dir path content : String) (r s t : S)
      → create_directories dir r ≡ some s
      → write path content s ≡ some t
      → create_directories dir t ≡ some t

-- The folder of the file: the text before its last "/".
abbrev pub folder : String → String
folder filepath = elim (rfind "/" filepath) [ none ↦ filepath | some i ↦ take i filepath ]

-- The loop over the lines, which `std::getline` gives without their ends.
unfoldable pub join_lines : String → String
join_lines [] = []
join_lines (c ∷ text) = if code c == 10 then join_lines text else c ∷ join_lines text

module _ {S : Type 0} ⦃F : FileApi S⦄ where
  -- The content, and the files that are left.
  unfoldable pub get_content_if_file_exists_else_create : String → String → S → Try (String × S)
  unfolding join_lines
  get_content_if_file_exists_else_create filepath content s =
      elim (F.create_directories (folder filepath) s) [
        | none ↦ raises system_error
        | some t ↦
            if F.is_regular_file t filepath
            then (elim (F.read t filepath) [
              | none ↦ returns ("", t)
              | some text ↦ returns (join_lines text, t)
            ])
            else elim (F.write filepath content t) [
              | none ↦ returns ("", t)
              | some u ↦ returns (content, u)
            ]
      ]

  -- A file that is not there, in a folder that can be created, is created with the given content, which
  -- is returned; the next call returns it without its line ends, and changes nothing.
  pub get_content_if_file_exists_else_create_twice :
      (filepath content other : String) (s t u : S)
      → F.create_directories (folder filepath) s ≡ some t
      → F.exists t filepath ≡ false
      → F.is_regular_file t filepath ≡ false
      → F.write filepath content t ≡ some u
      → (get_content_if_file_exists_else_create filepath content s ≡ returns (content, u))
        × (get_content_if_file_exists_else_create filepath other u
            ≡ returns (join_lines content, u))
  unfolding get_content_if_file_exists_else_create
  get_content_if_file_exists_else_create_twice filepath content other s t u d a r w =
      let d' = F.create_directories-write (folder filepath) filepath content s t u d w in
      let r' = F.is_regular_file-write filepath content t u a w in
      let c' = F.read-write filepath content t u a w in
      (
        rw (get_content_if_file_exists_else_create, d, r, w) refl,
        rw (get_content_if_file_exists_else_create, d', r', c') refl,
      )
