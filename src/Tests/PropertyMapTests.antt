-- ===== src/Tests/PropertyMapTests.antt =====
-- src/graph/fast_vector_property_map.hh on two short vectors.
use graph_tool.Common.{
  List, [], arith, false, if◌then◌else◌, length, ltb, refl, size_add, ℕ, ◌&&◌, ◌==◌, ◌^◌, ◌∷◌, ◌≡◌,
}
use graph_tool.PropertyMap.{
  CheckedMap, access, get, get_storage, get_unchecked, put, resize, to_unsigned, unchecked_get,
  unchecked_put,
}
use graph_tool.PropertyMap.Access.{access-bounds, put_lem}
use graph_tool.PropertyMap.Copies.{get_unchecked-equal}
use graph_tool.PropertyMap.View.{view}

abbrev two_vectors : List (List ℕ)
two_vectors = (7 ∷ []) ∷ (1 ∷ 2 ∷ []) ∷ []

abbrev first_map : CheckedMap ℕ
first_map = record { store = 0; index = λ v. v }

-- A write beyond the end makes the vector grow.
grown : put 0 2 9 first_map two_vectors ≡ (7 ∷ 0 ∷ 9 ∷ []) ∷ (1 ∷ 2 ∷ []) ∷ []
unfolding put resize size_add to_unsigned
grown = refl

put_lem_example :
    (length (put 0 2 9 first_map two_vectors) ≡ 2)
    × ((p i : ℕ)
        → view 0 (put 0 2 9 first_map two_vectors) p i
          ≡ (if p == 0 && i == 2 then 9 else view 0 two_vectors p i))
put_lem_example = put_lem 0 first_map two_vectors (omega arith) 2 (omega arith) 9

-- At the index 2 ^ 32 the vector does not grow, and the reference lies beyond its end.
access-bounds_example :
    ltb
      (access 0 (2 ^ 32) first_map two_vectors).0
      (length (get_storage first_map (access 0 (2 ^ 32) first_map two_vectors).1))
    ≡ false
access-bounds_example = access-bounds 0 first_map two_vectors (omega arith) (2 ^ 32) (omega arith)

get_unchecked-equal_example :
    let (um, after) = get_unchecked 0 3 first_map two_vectors in
    (unchecked_get 0 2 um after ≡ (get 0 2 first_map after).0)
    × (unchecked_put 2 9 um after ≡ put 0 2 9 first_map after)
get_unchecked-equal_example =
    get_unchecked-equal 0 first_map two_vectors (omega arith) 3 2 9 (omega arith)
