-- ===== src/Core/Table.antt =====
-- A table that is filled by insertions.
use kekmonitors_cpp.Prelude.{
  ℕ, String, ◌≡◌, Bool, true, not, ◌&&◌, Option, none, some, List, [], ◌∷◌, arith, ◌==◌, str_eq,
  eq_iff, Bool-cases, inl, inr, if◌then◌else◌,
}
use kekmonitors_cpp.Core.Bimap.{BimapApi}

-- Neither the number nor the text occurs in the list.
abbrev pub apart : ℕ → String → List (ℕ × String) → Bool
apart k v [] = true
apart k v ((j, w) ∷ ps) = not (k == j) && not (str_eq v w) && apart k v ps

abbrev pub distinct : List (ℕ × String) → Bool
distinct [] = true
distinct ((k, v) ∷ ps) = apart k v ps && distinct ps

abbrev pub left : List (ℕ × String) → ℕ → Option String
left [] k = none
left ((j, w) ∷ ps) k = if j == k then some w else left ps k

module _ {M : Type 0} ⦃b : BimapApi M⦄ where
  unfoldable pub insert_all : List (ℕ × String) → M → M
  insert_all [] m = m
  insert_all ((k, v) ∷ ps) m = insert_all ps (b.insert k v m)

  -- The map has none of the numbers and texts of the list.
  abbrev pub Fresh : List (ℕ × String) → M → Type 0
  Fresh [] m = Unit
  Fresh ((k, v) ∷ ps) m = (b.left_at m k ≡ none) × (b.right_at m v ≡ none) × Fresh ps m

  Fresh-insert :
      (k : ℕ) (v : String) (ps : List (ℕ × String)) (m : M)
      → b.left_at m k ≡ none
      → b.right_at m v ≡ none
      → apart k v ps ≡ true
      → Fresh ps m
      → Fresh ps (b.insert k v m)
  Fresh-insert k v [] m p q a f = tt
  Fresh-insert k v ((j, w) ∷ ps) m p q a f = (
    ground (arith, b.left_at-insert k v m j),
    ground (arith, b.right_at-insert k v m w),
    Fresh-insert k v ps m p q (ground arith) f.2,
  )

  -- An entry that is in the map stays through further insertions.
  insert_all_keeps :
      (k : ℕ) (v : String) (ps : List (ℕ × String)) (m : M)
      → apart k v ps ≡ true
      → distinct ps ≡ true
      → Fresh ps m
      → b.left_at m k ≡ some v
      → b.right_at m v ≡ some k
      → (b.left_at (insert_all ps m) k ≡ some v) × (b.right_at (insert_all ps m) v ≡ some k)
  unfolding insert_all
  insert_all_keeps k v [] m a d f p q = (p, q)
  insert_all_keeps k v ((j, w) ∷ ps) m a d f p q =
      insert_all_keeps k v ps (b.insert j w m) (ground arith) (ground arith)
        (Fresh-insert j w ps m f.0 f.1 (ground arith) f.2)
        (ground (arith, b.left_at-insert j w m k))
        (ground (arith, b.right_at-insert j w m v, eq_iff v w, eq_iff w v))

  pub insert_all_lem :
      (ps : List (ℕ × String)) (m : M) (k : ℕ) (v : String)
      → distinct ps ≡ true
      → Fresh ps m
      → left ps k ≡ some v
      → (b.left_at (insert_all ps m) k ≡ some v) × (b.right_at (insert_all ps m) v ≡ some k)
  unfolding insert_all
  insert_all_lem [] m k v d f h = absurd (ground arith)
  insert_all_lem ((j, w) ∷ ps) m k v d f h = elim (Bool-cases (j == k)) [
    | inl e ↦
        let number : k ≡ j = ground arith in
        let text : v ≡ w = ground arith in
        rw (number, text)
          (insert_all_keeps j w ps (b.insert j w m) (ground arith) (ground arith)
            (Fresh-insert j w ps m f.0 f.1 (ground arith) f.2)
            (ground (arith, b.left_at-insert j w m j))
            (ground (arith, b.right_at-insert j w m w, eq_iff w w)))
    | inr e ↦
        insert_all_lem ps (b.insert j w m) k v (ground arith)
          (Fresh-insert j w ps m f.0 f.1 (ground arith) f.2) (ground arith)
  ]

  -- Insertion adds no other number.
  pub insert_all-none :
      (ps : List (ℕ × String)) (m : M) (k : ℕ)
      → distinct ps ≡ true
      → Fresh ps m
      → left ps k ≡ none
      → b.left_at m k ≡ none
      → b.left_at (insert_all ps m) k ≡ none
  unfolding insert_all
  insert_all-none [] m k d f h p = p
  insert_all-none ((j, w) ∷ ps) m k d f h p =
      insert_all-none ps (b.insert j w m) k (ground arith)
        (Fresh-insert j w ps m f.0 f.1 (ground arith) f.2) (ground arith)
        (ground (arith, b.left_at-insert j w m k))

pub Fresh-empty : {M : Type 0} (b : BimapApi M) (ps : List (ℕ × String)) → Fresh ⦃b = b⦄ ps b.empty
Fresh-empty b [] = tt
Fresh-empty b ((k, v) ∷ ps) = (b.left_at-empty k, b.right_at-empty v, Fresh-empty b ps)
