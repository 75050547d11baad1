-- ===== src/Clock/Examples.antt =====
-- Compare of pkg/clock/clock.go at two concurrent vectors.
use shardlands.Prelude.{◌≡◌, ◌↔◌, refl, [], ◌∷◌, lookup}
use shardlands.Clock.Clocks.{
  Vector, equal, before, after, concurrent, some_less, some_greater, some_unseen, compare_vectors,
}
use shardlands.Clock.Causality.{Seen, compare_vectors-decides}

abbrev left : Vector
left = ("a", 2) ∷ ("b", 1) ∷ []

abbrev right : Vector
right = ("b", 1) ∷ ("c", 4) ∷ []

compare_vectors-decides_example :
    ((compare_vectors left right ≡ equal) ↔ (Seen left right × Seen right left))
    × ((compare_vectors left right ≡ before) ↔ (Seen left right × ¬ Seen right left))
    × ((compare_vectors left right ≡ after) ↔ (¬ Seen left right × Seen right left))
    × ((compare_vectors left right ≡ concurrent) ↔ (¬ Seen left right × ¬ Seen right left))
unfolding lookup
compare_vectors-decides_example =
    compare_vectors-decides left right (refl, (refl, tt)) (refl, (refl, tt))

neither : compare_vectors left right ≡ concurrent
unfolding compare_vectors lookup some_less some_unseen some_greater
neither = refl
