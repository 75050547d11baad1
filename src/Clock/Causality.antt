-- ===== src/Clock/Causality.antt =====
-- Compare of pkg/clock/clock.go decides the causal order of vector clocks.
use shardlands.Prelude.{
  ℕ, ◌≤◌, ◌≡◌, ◌↔◌, inl, inr, refl, Bool, true, false, ◌||◌, ◌&&◌, [], ◌∷◌, none, some, String,
  arith, str_eq, str_eq_iff, str_eq_refl, count_of, lookup, ltb, if◌then◌else◌, Bool-cases,
  Option-cases,
}
use shardlands.Counts.{IsMap, count_of-head, count_of-tail}
use shardlands.Clock.Clocks.{
  Vector, Ordering, equal, before, after, concurrent, some_less, some_greater, some_unseen,
  is_unseen, compare_vectors,
}

-- No entry of `v` is above `o`'s: what `v` has seen, `o` has seen.
abbrev pub Seen : Vector → Vector → Type 0
Seen v o = (id : String) → count_of id v ≤ count_of id o

or_false : (a b : Bool) → (a || b) ≡ false → (a ≡ false) × (b ≡ false)
or_false a b h = ground arith

some_greater_sound : (v o : Vector) → some_greater v o ≡ false → Seen v o
unfolding some_greater lookup
some_greater_sound [] o e id = omega arith
some_greater_sound ((j, c) ∷ v) o e id =
    let (low, rest) = or_false (ltb (count_of j o) c) (some_greater v o) e in
    let ih = some_greater_sound v o rest id in ground (arith, str_eq_iff j id)

some_greater_complete : (v o : Vector) → IsMap v → Seen v o → some_greater v o ≡ false
unfolding some_greater
some_greater_complete [] o h s = refl
some_greater_complete ((j, c) ∷ v) o h s =
    let ih =
      some_greater_complete v o h.1 (λ id. ground (arith, count_of-tail j id c v h.0, s id)) in
    ground (arith, s j, count_of-head j c v)

-- The entries of `v` are no less than `o`'s counts.
abbrev NotLess : Vector → Vector → Type 0
NotLess v o = (id : String) (c : ℕ) → lookup id v ≡ some c → count_of id o ≤ c

some_less_sound : (v o : Vector) → some_less v o ≡ false → NotLess v o
unfolding some_less lookup
some_less_sound [] o e id c g = cc
some_less_sound ((j, vc) ∷ v) o e id c g =
    let (low, rest) = or_false (ltb vc (count_of j o)) (some_less v o) e in
    elim (Bool-cases (str_eq j id)) [
      | inl same ↦ ground (arith, str_eq_iff j id)
      | inr other ↦ some_less_sound v o rest id c (ground arith)
    ]

some_less_complete : (v o : Vector) → IsMap v → NotLess v o → some_less v o ≡ false
unfolding some_less lookup
some_less_complete [] o h s = refl
some_less_complete ((j, vc) ∷ v) o h s =
    let ih = some_less_complete v o h.1 (λ id c g. s id c (ground (arith, str_eq_iff j id))) in
    let first = s j vc (rw (str_eq_refl j)) in ground arith

-- What `v` has not seen, `o` counts 0.
abbrev NoneUnseen : Vector → Vector → Type 0
NoneUnseen v o = (id : String) → lookup id v ≡ none → count_of id o ≡ 0

some_unseen_sound : (v o : Vector) → some_unseen v o ≡ false → NoneUnseen v o
unfolding some_unseen lookup
some_unseen_sound v [] e id g = refl
some_unseen_sound v ((j, oc) ∷ o) e id g =
    let (low, rest) = or_false (is_unseen (lookup j v) && ltb 0 oc) (some_unseen v o) e in
    let ih = some_unseen_sound v o rest id g in
    elim (Bool-cases (str_eq j id)) [
      | inl same ↦ ground (arith, str_eq_iff j id)
      | inr other ↦ ground arith
    ]

some_unseen_complete : (v o : Vector) → IsMap o → NoneUnseen v o → some_unseen v o ≡ false
unfolding some_unseen
some_unseen_complete v [] h s = refl
some_unseen_complete v ((j, oc) ∷ o) h s =
    let ih =
      some_unseen_complete v o h.1 (λ id g. ground (arith, count_of-tail j id oc o h.0, s id)) in
    elim (Option-cases (lookup j v)) [
      | inl unseen ↦ ground (arith, s j unseen, count_of-head j oc o)
      | inr (c, seen) ↦ ground arith
    ]

abbrev less_than : Vector → Vector → Bool
less_than v o = some_less v o || some_unseen v o

less_sound : (v o : Vector) → less_than v o ≡ false → Seen o v
less_sound v o e id =
    let (a, b) = or_false (some_less v o) (some_unseen v o) e in
    elim (Option-cases (lookup id v)) [
      | inl unseen ↦ omega (arith, some_unseen_sound v o b id unseen)
      | inr (c, seen) ↦ rw seen (some_less_sound v o a id c seen)
    ]

less_complete : (v o : Vector) → IsMap v → IsMap o → Seen o v → less_than v o ≡ false
less_complete v o hv ho s =
    let a = some_less_complete v o hv (λ id c g. ground (arith, s id)) in
    let b = some_unseen_complete v o ho (λ id g. ground (arith, s id)) in ground arith

-- What Compare answers on its two findings, less and greater.
abbrev order_of : Bool → Bool → Ordering
order_of l g = if l && g then concurrent else if l then before else if g then after else equal

order_of-decides :
    (l g : Bool) {P Q : Type 0}
    → (g ≡ false) ↔ P
    → (l ≡ false) ↔ Q
    → ((order_of l g ≡ equal) ↔ (P × Q))
      × ((order_of l g ≡ before) ↔ (P × ¬ Q))
      × ((order_of l g ≡ after) ↔ (¬ P × Q))
      × ((order_of l g ≡ concurrent) ↔ (¬ P × ¬ Q))
order_of-decides true true a b = (ground arith, ground arith, ground arith, ground arith)
order_of-decides true false a b = (ground arith, ground arith, ground arith, ground arith)
order_of-decides false true a b = (ground arith, ground arith, ground arith, ground arith)
order_of-decides false false a b = (ground arith, ground arith, ground arith, ground arith)

-- Compare decides the causal order: it answers before exactly if all that `v` has seen `o` has
-- seen and not the other way round, after the other way round, equal exactly if each has seen
-- what the other has, and concurrent exactly if neither has.
pub compare_vectors-decides :
    (v o : Vector)
    → IsMap v
    → IsMap o
    → ((compare_vectors v o ≡ equal) ↔ (Seen v o × Seen o v))
      × ((compare_vectors v o ≡ before) ↔ (Seen v o × ¬ Seen o v))
      × ((compare_vectors v o ≡ after) ↔ (¬ Seen v o × Seen o v))
      × ((compare_vectors v o ≡ concurrent) ↔ (¬ Seen v o × ¬ Seen o v))
unfolding compare_vectors
compare_vectors-decides v o hv ho =
    order_of-decides (less_than v o) (some_greater v o)
      (some_greater_sound v o, some_greater_complete v o hv)
      (less_sound v o, less_complete v o hv ho)
