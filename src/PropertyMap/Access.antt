-- ===== src/PropertyMap/Access.antt =====
-- `operator[]`, `reserve` and `get_unchecked` of src/graph/fast_vector_property_map.hh.

use graph_tool.Common.{
  Bool-cases, List, [], ap, arith, get_or-set, if◌then◌else◌, inl, inr, leb, length, length-set,
  ltb, refl, set, size_add, size_mod, ℕ, ◌%◌, ◌&&◌, ◌+◌, ◌<◌, ◌==◌, ◌^◌, ◌||◌, ◌∙◌, ◌≡◌, ◌≤◌,
}
use graph_tool.PropertyMap.{
  CheckedMap, Vectors, access, get, get_storage, put, reserve, resize, to_unsigned,
}
use graph_tool.PropertyMap.View.{length-resize, view, view-resize, view-set}
use native.Mathlib.Decide.{ℕ_discrete}

module _ {ℓ} {T : Type ℓ} (default : T) where
  -- Vectors that stand for the same functions, and are as many.
  pub record Same (before after : Vectors T) : Type ℓ where
    pub number : length after ≡ length before
    pub values : (p i : ℕ) → view default after p i ≡ view default before p i

module _ {ℓ κ} {K : Type κ} {T : Type ℓ} (default : T) where
  module _ (m : CheckedMap K) (vectors : Vectors T) (in_m : m.store < length vectors) where
    get_storage-set : (xs : List T) → get_storage m (set vectors m.store xs) ≡ xs
    get_storage-set xs = ground (arith, get_or-set vectors m.store m.store xs [] in_m)

    resized :
        (n : ℕ)
        → length (get_storage m vectors) ≤ n
        → Same default vectors (set vectors m.store (resize default n (get_storage m vectors)))
    resized n le = record {
      number = length-set vectors m.store (resize default n (get_storage m vectors));
      values = λ p i. view-resize default vectors m.store n p i in_m le;
    }

    -- `reserve` leaves a vector that is long enough and changes no value.
    pub reserve_lem :
        (size : ℕ)
        → Same default vectors (reserve default size m vectors)
          × (size ≤ length (get_storage m (reserve default size m vectors)))
    unfolding reserve
    reserve_lem size = elim (Bool-cases (ltb (length (get_storage m vectors)) size)) [
      | inr enough ↦
          rw enough (record { number = refl; values = λ p i. refl }, ground (arith, enough))
      | inl short ↦ rw short (
        resized size (ground (arith, short)),
        omega (
          arith,
          ap length (get_storage-set (resize default size (get_storage m vectors))),
          length-resize default size (get_storage m vectors),
        ),
      )
    ]

    -- Where the index is below the largest `size_t`, the reference that `operator[]` returns lies in
    -- the vector exactly where the index is below its length before or its low 32 bits are not.
    pub access-bounds :
        (v : K)
        → m.index v + 1 < size_mod
        → ltb (access default v m vectors).0 (length (get_storage m (access default v m vectors).1))
          ≡ (ltb (m.index v) (length (get_storage m vectors))
              || leb (length (get_storage m vectors)) (m.index v % 2 ^ 32))
    unfolding access to_unsigned size_add
    access-bounds v room =
        let store = get_storage m vectors in
        let i = m.index v in
        elim (Bool-cases (leb (length store) (i % 2 ^ 32))) [
          | inr skipped ↦ ground (arith, skipped)
          | inl short ↦ rw short (
              ground (
                arith,
                short,
                room,
                ap length (get_storage-set (resize default ((i + 1) % size_mod) store)),
                length-resize default ((i + 1) % size_mod) store,
              ))
        ]

    module _ (v : K) (narrow : m.index v < 2 ^ 32) where
      access-Same : Same default vectors (access default v m vectors).1
      unfolding access to_unsigned size_add
      access-Same =
          let store = get_storage m vectors in
          let i = m.index v in
          elim (Bool-cases (leb (length store) (i % 2 ^ 32))) [
            | inr inside ↦ rw inside (record { number = refl; values = λ p i. refl })
            | inl short ↦ rw short (resized ((i + 1) % size_mod) (ground (arith, short, narrow)))
          ]

      access-inside : m.index v < length (get_storage m (access default v m vectors).1)
      unfolding access
      access-inside = ground (arith, access-bounds v (omega (arith, narrow)), narrow)

      -- For an index of 32 bits, `get` returns the value that the map stands for at that index, the
      -- default beyond the end of the vector, and changes no value of any map.
      pub get_lem :
          ((get default v m vectors).0 ≡ view default vectors m.store (m.index v))
          × Same default vectors (get default v m vectors).1
      unfolding get access
      get_lem = (access-Same.values m.store (m.index v), access-Same)

      -- For an index of 32 bits, `put` sets the value at that index in every map that shares the
      -- vector, and no other value, and makes no vector.
      pub put_lem :
          (x : T)
          → (length (put default v x m vectors) ≡ length vectors)
            × ((p i : ℕ)
                → view default (put default v x m vectors) p i
                  ≡ (if p == m.store && i == m.index v then x else view default vectors p i))
      unfolding put access
      put_lem x =
          let after = (access default v m vectors).1 in
          let same = access-Same in
          let xs = get_storage m after in
          (
            length-set after m.store (set xs (m.index v) x) ∙ same.number,
            λ p i. ground (
              arith,
              view-set default after m.store (set xs (m.index v) x) p i
                  (omega (arith, in_m, same.number)),
              get_or-set xs (m.index v) i x default access-inside,
              same.values p i,
              at_store p i,
            ),
          )
        where
          at_store :
              (p i : ℕ)
              → (if p == m.store
                  then view default (access default v m vectors).1 m.store i
                  else default)
                ≡ (if p == m.store
                    then view default (access default v m vectors).1 p i
                    else default)
          at_store p i = elim (ℕ_discrete p m.store) [
            | yes e ↦ ground (arith, e, ap (λ q. view default (access default v m vectors).1 q i) e)
            | no ne ↦ ground (arith, ne)
          ]
