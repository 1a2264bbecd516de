-- ===== src/Moman/Invariant/Entries.antt =====
-- Predicates on the entries of a map, and the one that the manager keeps.
use kekmonitors_cpp.Prelude.{
  String, ◌≡◌, refl, true, false, ◌||◌, none, some, [], ◌∷◌, Map, find, assign, erase, emplace,
  find-erase, find-assign, find-emplace, is_some, arith, eq_iff, str_eq, Bool-cases, inl, inr,
}
use kekmonitors_cpp.Moman.State.{StoredObject}

module _ {V : Type 0} where
  abbrev pub All : (String → V → Type 0) → Map V → Type 0
  All P [] = Unit
  All P ((k, v) ∷ m) = P k v × All P m

  pub All-find :
      (P : String → V → Type 0) (k : String) (v : V) (m : Map V)
      → All P m
      → find k m ≡ some v
      → P k v
  unfolding find
  All-find P k v [] h e = absurd (ground arith)
  All-find P k v ((j, w) ∷ m) h e = elim (Bool-cases (str_eq j k)) [
    | inl hit ↦
        let key : k ≡ j = ground (arith, eq_iff j k) in
        let value : v ≡ w = ground arith in rw (key, value) h.0
    | inr miss ↦ All-find P k v m h.1 (ground arith)
  ]

  pub All-erase : (P : String → V → Type 0) (k : String) (m : Map V) → All P m → All P (erase k m)
  unfolding erase
  All-erase P k [] h = tt
  All-erase P k ((j, w) ∷ m) h = elim (Bool-cases (str_eq j k)) [
    | inl hit ↦ rw (hit, erase) (All-erase P k m h.1)
    | inr miss ↦ rw (miss, erase) (h.0, All-erase P k m h.1)
  ]

  pub All-assign :
      (P : String → V → Type 0) (k : String) (v : V) (m : Map V)
      → All P m
      → P k v
      → All P (assign k v m)
  unfolding assign
  All-assign P k v [] h p = tt
  All-assign P k v ((j, w) ∷ m) h p = elim (Bool-cases (str_eq j k)) [
    | inl hit ↦
        let key : j ≡ k = (eq_iff j k).0 hit in
        rw (hit, assign) (rw key p, All-assign P k v m h.1 p)
    | inr miss ↦ rw (miss, assign) (h.0, All-assign P k v m h.1 p)
  ]

  pub All-emplace :
      (P : String → V → Type 0) (k : String) (v : V) (m : Map V)
      → All P m
      → P k v
      → All P (emplace k v m)
  unfolding emplace
  All-emplace P k v [] h p = (p, tt)
  All-emplace P k v ((j, w) ∷ m) h p = elim (Bool-cases (str_eq j k)) [
    | inl hit ↦ rw (hit, emplace) h
    | inr miss ↦ rw (miss, emplace) (h.0, All-emplace P k v m h.1 p)
  ]

-- An object is stored under its class name, with a process or a socket; it has the timer that `onAdd`
-- gave it; and its addition was not confirmed.
pub record IsStored (k : String) (obj : StoredObject) : Type 0 where
  pub present : (is_some obj.process || is_some obj.endpoint) ≡ true
  pub named : obj.class_name ≡ k
  pub timed : is_some obj.on_add_timer ≡ true
  pub unconfirmed : obj.confirm_added ≡ false

module _ {V : Type 0} where
  -- No key stands twice in the map.
  abbrev pub IsDistinct : Map V → Type 0
  IsDistinct [] = Unit
  IsDistinct ((k, v) ∷ m) = (find k m ≡ none) × IsDistinct m

  pub IsDistinct-erase : (k : String) (m : Map V) → IsDistinct m → IsDistinct (erase k m)
  unfolding erase
  IsDistinct-erase k [] h = tt
  IsDistinct-erase k ((j, w) ∷ m) h = elim (Bool-cases (str_eq j k)) [
    | inl hit ↦ rw (hit, erase) (IsDistinct-erase k m h.1)
    | inr miss ↦ rw (miss, erase) (ground (arith, find-erase k j m, h.0), IsDistinct-erase k m h.1)
  ]

  pub IsDistinct-assign :
      (k : String) (v : V) (m : Map V) → IsDistinct m → IsDistinct (assign k v m)
  unfolding assign
  IsDistinct-assign k v [] h = tt
  IsDistinct-assign k v ((j, w) ∷ m) h =
      let kept : find j (assign k v m) ≡ none =
        ground (arith, find-assign k j v m, eq_iff k j, h.0) in
      elim (Bool-cases (str_eq j k)) [
        | inl hit ↦ rw (hit, assign) (kept, IsDistinct-assign k v m h.1)
        | inr miss ↦ rw (miss, assign) (kept, IsDistinct-assign k v m h.1)
      ]

  pub IsDistinct-emplace :
      (k : String) (v : V) (m : Map V) → IsDistinct m → IsDistinct (emplace k v m)
  unfolding emplace find
  IsDistinct-emplace k v [] h = (refl, tt)
  IsDistinct-emplace k v ((j, w) ∷ m) h = elim (Bool-cases (str_eq j k)) [
    | inl hit ↦ rw (hit, emplace) h
    | inr miss ↦
        rw (miss, emplace)
          (
            ground (arith, find-emplace k j v m, eq_iff k j, eq_iff j k, h.0),
            IsDistinct-emplace k v m h.1,
          )
  ]

-- A map of the manager: its entries, of which no two have a key.
pub record AreStored (m : Map StoredObject) : Type 0 where
  pub entries : All IsStored m
  pub distinct : IsDistinct m

pub AreStored-erase : (k : String) (m : Map StoredObject) → AreStored m → AreStored (erase k m)
AreStored-erase k m h = record {
  entries = All-erase IsStored k m h.entries;
  distinct = IsDistinct-erase k m h.distinct;
}

pub AreStored-assign :
    (k : String) (obj : StoredObject) (m : Map StoredObject)
    → AreStored m
    → IsStored k obj
    → AreStored (assign k obj m)
AreStored-assign k obj m h p = record {
  entries = All-assign IsStored k obj m h.entries p;
  distinct = IsDistinct-assign k obj m h.distinct;
}

pub AreStored-emplace :
    (k : String) (obj : StoredObject) (m : Map StoredObject)
    → AreStored m
    → IsStored k obj
    → AreStored (emplace k obj m)
AreStored-emplace k obj m h p = record {
  entries = All-emplace IsStored k obj m h.entries p;
  distinct = IsDistinct-emplace k obj m h.distinct;
}
