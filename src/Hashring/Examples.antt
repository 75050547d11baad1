-- ===== src/Hashring/Examples.antt =====
-- The ring of pkg/hashring/hashring.go with two nodes.
use shardlands.Prelude.{
  true, ℕ, ◌≡◌, ◌≢◌, ◌≤◌, refl, sym, [], ◌∷◌, String, str_eq, str_eq_iff, if◌then◌else◌, length,
  subst,
}
use mathlib.Core.Bool.{false≢true}
use shardlands.Hashring.Ring.{
  is_member, Ring, new_ring, add, add_loop, place, place_all, remove, get, get_n, sort, vnode_key,
  itoa,
}
use shardlands.Hashring.Invariant.{IsRing, new_ring-IsRing, add-IsRing}
use shardlands.Hashring.Moves.{get-remove}
use shardlands.Hashring.Owners.{get-registered}
use shardlands.Hashring.Leaving.{remove-IsRing}
use shardlands.Hashring.Replicas.{Unrepeated, get_n-Unrepeated}

abbrev checksum : String → ℕ
checksum s =
    if str_eq s "a#0"
    then 10
    else if str_eq s "b#0"
    then 20
    else if str_eq s "near-b"
    then 15
    else 30

abbrev two : Ring
two = add checksum ("b" ∷ "a" ∷ "b" ∷ "" ∷ []) (new_ring 0)

near_b : get checksum "near-b" two ≡ "b"
unfolding get add add_loop place_all place new_ring sort vnode_key itoa
near_b = refl

far : get checksum "far" two ≡ "a"
unfolding get add add_loop place_all place new_ring sort vnode_key itoa
far = refl

b_not_a : ◌≢◌ {A = String} "b" "a"
b_not_a e = false≢true ((str_eq_iff "b" "a").1 e)

a_named : ◌≢◌ {A = String} "a" ""
a_named e = false≢true ((str_eq_iff "a" "").1 e)

-- The key of b stays when a leaves.
get-remove_example : get checksum "near-b" (remove "a" two) ≡ get checksum "near-b" two
get-remove_example =
    get-remove checksum "near-b" "a" two (subst (λ x. x ≢ "a") (sym near_b) b_not_a)

two-IsRing : IsRing two
two-IsRing = add-IsRing checksum ("b" ∷ "a" ∷ "b" ∷ "" ∷ []) (new_ring 0) (new_ring-IsRing 0)

add-IsRing_example : IsRing two
add-IsRing_example =
    add-IsRing checksum ("b" ∷ "a" ∷ "b" ∷ "" ∷ []) (new_ring 0) (new_ring-IsRing 0)

remove-IsRing_example : IsRing (remove "a" two)
remove-IsRing_example = remove-IsRing "a" two two-IsRing

get_n-Unrepeated_example :
    Unrepeated (get_n checksum "far" 2 two) × (length (get_n checksum "far" 2 two) ≤ 2)
get_n-Unrepeated_example = get_n-Unrepeated checksum "far" 2 two

two_not_empty : two.ring ≢ []
unfolding add add_loop place_all place new_ring sort vnode_key itoa
two_not_empty e = cc

get-registered_example : is_member (get checksum "far" two) two.nodes ≡ true
get-registered_example = get-registered checksum "far" two two-IsRing two_not_empty
