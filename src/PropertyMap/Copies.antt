-- ===== src/PropertyMap/Copies.antt =====
-- Copies and unchecked maps of src/graph/fast_vector_property_map.hh.

use graph_tool.AdjList.Rows.{same}
use graph_tool.Common.{
  Bool-cases, List, [], ap, arith, false, get_or, get_or-set, if◌then◌else◌, inl, inr, leb, length,
  length-append, length-set, ltb, refl, set, suc, zero, ℕ, ◌%◌, ◌&&◌, ◌++◌, ◌<◌, ◌==◌, ◌^◌, ◌∙◌,
  ◌∷◌, ◌≡◌, ◌≤◌,
}
use graph_tool.PropertyMap.{
  CheckedMap, Vectors, access, copy, get, get_storage, get_unchecked, new_checked, new_unchecked,
  new_unchecked_from, put, reserve, resize, to_unsigned, unchecked_copy, unchecked_get,
  unchecked_put,
}
use graph_tool.PropertyMap.Access.{Same, put_lem, reserve_lem}
use graph_tool.PropertyMap.View.{view, view-append, view-set}

module _ {ℓ κ} {K : Type κ} {T : Type ℓ} (default : T) (m : CheckedMap K) (vectors : Vectors T)
    (in_m : m.store < length vectors) where
  -- Making an unchecked map of some size keeps every value, and makes the vector that long.
  pub get_unchecked_lem :
      (size : ℕ)
      → Same default vectors (get_unchecked default size m vectors).1
        × (size ≤ length (get_storage m (get_unchecked default size m vectors).1))
  unfolding get_unchecked new_unchecked
  get_unchecked_lem size =
      let (same, long) = reserve_lem default m vectors in_m size in
      let enough : (ltb 0 size
            && ltb (length (get_storage m (reserve default size m vectors))) size)
          ≡ false =
        ground (arith, long) in
      rw enough (same, long)

  -- At an index below the size that it is made with, an unchecked map reads and writes what the
  -- checked map does.
  pub get_unchecked-equal :
      (size : ℕ) (v : K) (x : T)
      → m.index v < size
      → let (um, after) = get_unchecked default size m vectors in
        (unchecked_get default v um after ≡ (get default v m after).0)
        × (unchecked_put v x um after ≡ put default v x m after)
  unfolding get_unchecked new_unchecked unchecked_get unchecked_put get put access to_unsigned
  get_unchecked-equal size v x below =
      let after = (get_unchecked default size m vectors).1 in
      let long = (get_unchecked_lem size).1 in
      let inside : leb (length (get_storage m after)) (m.index v % 2 ^ 32) ≡ false =
        ground (arith, long, below) in
      rw inside (refl, refl)

  -- A copy has a vector of its own, that stands for the same values; no other vector changes.
  pub copy_lem :
      let (pmap, after) = copy default m vectors in
      (pmap.store ≡ length vectors)
      × (length after ≡ suc (length vectors))
      × ((p i : ℕ)
          → view default after p i ≡ (
              if p == length vectors
              then view default vectors m.store i
              else view default vectors p i))
  unfolding copy new_checked resize
  copy_lem =
      let more = vectors ++ [] ∷ [] in
      let number : length more ≡ suc (length vectors) =
        omega (arith, length-append vectors ([] ∷ [])) in
      let end : length vectors < length more = omega (arith, number) in
      (
        refl,
        length-set more (length vectors) (get_storage m more) ∙ number,
        λ p i. ground (
          arith,
          in_m,
          view-set default more (length vectors) (get_storage m more) p i end,
          view-append default vectors [] p i,
          view-append default vectors [] m.store i,
        ),
      )

  set-set : (vs : Vectors T) (p : ℕ) (xs ys : List T) → set (set vs p xs) p ys ≡ set vs p ys
  set-set [] p xs ys = refl
  set-set (zs ∷ vs) zero xs ys = refl
  set-set (zs ∷ vs) (suc p) xs ys = ap (◌∷◌ zs) (set-set vs p xs ys)

  get_or-append :
      (vs : Vectors T) (xs : List T) (p : ℕ)
      → p < length vs
      → get_or (vs ++ xs ∷ []) p [] ≡ get_or vs p []
  get_or-append [] xs p h = absurd (omega arith)
  get_or-append (ys ∷ vs) xs zero h = refl
  get_or-append (ys ∷ vs) xs (suc p) h = get_or-append vs xs p (omega arith)

  -- Copying an unchecked map leaves the vectors that copying its checked map leaves.
  pub unchecked_copy-copy :
      (unchecked_copy default (record { checked = m }) vectors).1 ≡ (copy default m vectors).1
  unfolding unchecked_copy new_unchecked_from new_unchecked copy new_checked resize
  unchecked_copy-copy =
      let more = vectors ++ [] ∷ [] in
      let n = length vectors in
      let xs = get_storage m vectors in
      let kept : get_storage m more ≡ xs = get_or-append vectors [] m.store in_m in
      elim (Bool-cases (ltb 0 (length xs) && ltb (length (get_or more n [])) (length xs))) [
        | inr off ↦ rw off refl
        | inl on ↦
            let ys = resize default (length xs) (get_or more n []) in
            let other : get_or (set more n ys) m.store [] ≡ get_or more m.store [] = ground (
              arith,
              in_m,
              get_or-set more n m.store ys [] (omega (arith, length-append vectors ([] ∷ []))),
            ) in
            rw (on, other) (set-set more n ys (get_storage m more))
      ]

  -- For an index of 32 bits: a write to a copy changes no value of the maps there were, and a write
  -- to the map that was copied changes no value of the copy.
  pub put-copy :
      (v : K) (x : T) (p i : ℕ)
      → m.index v < 2 ^ 32
      → p < length vectors
      → let (pmap, after) = copy default m vectors in
        (view default (put default v x pmap after) p i ≡ view default vectors p i)
        × (view default (put default v x m after) pmap.store i ≡ view default vectors m.store i)
  put-copy v x p i narrow old =
      let (pmap, after) = copy default m vectors in
      let (place, number, values) = copy_lem in
      let same_index : pmap.index v ≡ m.index v = unfold copy new_checked in refl in
      let in_copy : pmap.store < length after = omega (arith, place, number) in
      let in_old : m.store < length after = omega (arith, in_m, number) in
      let narrow' : pmap.index v < 2 ^ 32 = omega (arith, narrow, same_index) in
      (
        ground
            (arith, place, old, (put_lem default pmap after in_copy v narrow' x).1 p i, values p i),
        ground (
          arith,
          place,
          in_m,
          (put_lem default m after in_old v narrow x).1 pmap.store i,
          values pmap.store i,
        ),
      )
