-- ===== src/Crdt/Examples.antt =====
-- The convergence of pkg/crdt's counters at three replicas.
use shardlands.Prelude.{ℕ, zero, suc, ◌≡◌, refl, List, [], ◌∷◌, String, lookup}
use shardlands.Counts.{Same}
use shardlands.Crdt.Counters.{GCounter, value}
use shardlands.Crdt.Convergence.{Covers, merge_all, merge_all_converges}

abbrev counts_of : List (String × ℕ) → GCounter
counts_of m = record { counts = m }

abbrev own : GCounter
own = counts_of (("a", 1) ∷ [])

abbrev from_b : GCounter
from_b = counts_of (("b", 5) ∷ ("a", 3) ∷ [])

abbrev from_c : GCounter
from_c = counts_of (("c", 2) ∷ [])

-- One replica hears from b, then c; the other from c, b and b again.
abbrev once : List GCounter
once = from_b ∷ from_c ∷ []

abbrev again : List GCounter
again = from_c ∷ from_b ∷ from_b ∷ []

again-Covers : Covers again once
again-Covers zero o e = (1, e)
again-Covers (suc zero) o e = (0, e)
again-Covers (suc (suc i)) o e = cc

once-Covers : Covers once again
once-Covers zero o e = (1, e)
once-Covers (suc zero) o e = (0, e)
once-Covers (suc (suc zero)) o e = (0, e)
once-Covers (suc (suc (suc i))) o e = cc

merge_all_converges_example :
    Same (merge_all own once).counts (merge_all own again).counts
    × (value (merge_all own once) ≡ value (merge_all own again))
unfolding lookup
merge_all_converges_example =
    merge_all_converges own once again (refl, tt) ((refl, (refl, tt)), ((refl, tt), tt))
      ((refl, tt), ((refl, (refl, tt)), ((refl, (refl, tt)), tt))) again-Covers once-Covers
