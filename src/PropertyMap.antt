-- ===== src/PropertyMap.antt =====
-- src/graph/fast_vector_property_map.hh: property maps in vectors that copies of a map share. The
-- vectors are a list, a `shared_ptr` is a place in it, and a reference is the place of an element in
-- its vector; `default` is `T()`.
pub mod View
pub mod Access
pub mod Copies
use graph_tool.Common.{
  List, [], get_or, if◌then◌else◌, leb, length, ltb, set, size_add, suc, zero, ℕ, ◌%◌, ◌&&◌, ◌++◌,
  ◌^◌, ◌∷◌,
}

abbrev pub Vectors {ℓ} : Type ℓ → Type ℓ
Vectors T = List (List T)

-- `checked_vector_property_map`
pub record CheckedMap {ℓ} (K : Type ℓ) : Type ℓ where
  pub store : ℕ
  pub index : K → ℕ

-- `unchecked_vector_property_map`
pub record UncheckedMap {ℓ} (K : Type ℓ) : Type ℓ where
  pub checked : CheckedMap K

-- `static_cast<unsigned>(i)`
unfoldable pub to_unsigned : ℕ → ℕ
to_unsigned i = i % 2 ^ 32

-- `vector::resize`
unfoldable pub resize {ℓ} : {T : Type ℓ} → T → ℕ → List T → List T
resize default zero xs = []
resize default (suc n) [] = default ∷ resize default n []
resize default (suc n) (x ∷ xs) = x ∷ resize default n xs

module _ {ℓ κ} {K : Type κ} {T : Type ℓ} where
  -- `get_storage`
  abbrev pub get_storage : CheckedMap K → Vectors T → List T
  get_storage m vectors = get_or vectors m.store []

  unfoldable pub new_checked : T → ℕ → (K → ℕ) → Vectors T → CheckedMap K × Vectors T
  unfolding resize
  new_checked default initial_size idx vectors = (
    record { store = length vectors; index = idx },
    vectors ++ resize default initial_size [] ∷ [],
  )

  unfoldable pub reserve : T → ℕ → CheckedMap K → Vectors T → Vectors T
  unfolding resize
  reserve default size m vectors =
      let store = get_storage m vectors in
      if ltb (length store) size then set vectors m.store (resize default size store) else vectors

  unfoldable pub copy : T → CheckedMap K → Vectors T → CheckedMap K × Vectors T
  unfolding new_checked
  copy default m vectors =
      let (pmap, more) = new_checked default 0 m.index vectors in
      (pmap, set more pmap.store (get_storage m more))

  -- `operator[]`: the place of the reference, and the vectors afterwards.
  unfoldable pub access : T → K → CheckedMap K → Vectors T → ℕ × Vectors T
  unfolding to_unsigned resize size_add
  access default v m vectors =
      let i = m.index v in
      let store = get_storage m vectors in
      (
        i,
        if leb (length store) (to_unsigned i)
            then set vectors m.store (resize default (size_add i 1) store)
            else vectors,
      )

  -- `get(m, v)`
  unfoldable pub get : T → K → CheckedMap K → Vectors T → T × Vectors T
  unfolding access
  get default v m vectors =
      let (i, after) = access default v m vectors in (get_or (get_storage m after) i default, after)

  -- `put(m, v, x)`
  unfoldable pub put : T → K → T → CheckedMap K → Vectors T → Vectors T
  unfolding access
  put default v x m vectors =
      let (i, after) = access default v m vectors in
      set after m.store (set (get_storage m after) i x)

  -- The constructor from a checked map.
  unfoldable pub new_unchecked : T → CheckedMap K → ℕ → Vectors T → UncheckedMap K × Vectors T
  unfolding resize
  new_unchecked default checked size vectors =
      let store = get_storage checked vectors in
      (
        record { checked = checked },
        if ltb 0 size && ltb (length store) size
            then set vectors checked.store (resize default size store)
            else vectors,
      )

  -- The constructor from an index map.
  unfoldable pub new_unchecked_from : T → (K → ℕ) → ℕ → Vectors T → UncheckedMap K × Vectors T
  unfolding new_checked new_unchecked
  new_unchecked_from default index_map size vectors =
      let (checked, more) = new_checked default 0 index_map vectors in
      new_unchecked default checked size more

  unfoldable pub get_unchecked : T → ℕ → CheckedMap K → Vectors T → UncheckedMap K × Vectors T
  unfolding reserve new_unchecked
  get_unchecked default size m vectors =
      new_unchecked default m size (reserve default size m vectors)

  -- `get` and `put` of an unchecked map.
  unfoldable pub unchecked_get : T → K → UncheckedMap K → Vectors T → T
  unchecked_get default v m vectors =
      get_or (get_storage m.checked vectors) (m.checked.index v) default

  unfoldable pub unchecked_put : K → T → UncheckedMap K → Vectors T → Vectors T
  unchecked_put v x m vectors =
      set vectors m.checked.store (set (get_storage m.checked vectors) (m.checked.index v) x)

  unfoldable pub unchecked_copy : T → UncheckedMap K → Vectors T → UncheckedMap K × Vectors T
  unfolding new_unchecked_from
  unchecked_copy default m vectors =
      let size = length (get_storage m.checked vectors) in
      let (pmap, more) = new_unchecked_from default m.checked.index size vectors in
      (pmap, set more pmap.checked.store (get_storage m.checked more))
