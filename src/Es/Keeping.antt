-- ===== src/Es/Keeping.antt =====
-- Append of one event, of pkg/es/es.go, keeps the store in order.
use shardlands.Prelude.{
  ℕ, ◌+◌, ◌≡◌, ◌≤◌, ◌<◌, refl, sym, ap, subst, ◌∙◌, Bool, true, false, List, [], ◌∷◌, ◌++◌, some,
  String, arith, str_eq, if◌then◌else◌, length, length-append, lookup, lookup-insert, All,
}
use shardlands.Es.Store.{Store, or_zero, or_none, version, idx_of, count_in}
use shardlands.Es.Store.{empty_store}
use shardlands.Es.Growing.{IsStore, grown}

widen :
    (n k : ℕ) (l : List ℕ) → All (λ g. (g ≤ n) × (0 < k)) l → All (λ g. (g ≤ n + 1) × (0 < k + 1)) l
widen n k [] h = h
widen n k (g ∷ gs) h = ((omega (arith, h.0.0), omega arith), widen n k gs h.1)

widen_starts :
    (n : ℕ) (l : List ℕ) → All (λ b. b ≤ n) l → All (λ b. b ≤ n + 1) (l ++ ((n + 1) ∷ []))
widen_starts n [] h = (omega arith, h)
widen_starts n (b ∷ bs) h = (omega (arith, h.0), widen_starts n bs h.1)

numbered_new :
    (n k : ℕ) (l : List ℕ)
    → All (λ g. (g ≤ n + 1) × (0 < k + 1)) l
    → All (λ g. (g ≤ n + 1) × (0 < k + 1)) (l ++ ((n + 1) ∷ []))
numbered_new n k [] h = ((omega arith, omega arith), h)
numbered_new n k (g ∷ gs) h = (h.0, numbered_new n k gs h.1)

length_nil : 0 ≡ length {A = ℕ} []
length_nil = omega arith

module _ {E : Type 0} where
  pub empty_store-IsStore : IsStore {E = E} empty_store
  unfolding lookup
  empty_store-IsStore = record {
    numbers = λ stream. tt;
    starts = tt;
    counted = λ stream. length_nil;
  }

  pub idx_of-grown :
      (stream other : String) (e : E) (s : Store E)
      → idx_of other (grown stream e s)
        ≡ (if str_eq stream other then idx_of stream s ++ ((s.global + 1) ∷ []) else idx_of other s)
  unfolding count_in
  idx_of-grown stream other e s =
      ap or_none
        (lookup-insert stream other (idx_of stream s ++ ((s.global + 1) ∷ [])) s.stream_idx)
      ∙ pick (str_eq stream other)
    where
      pick :
          (b : Bool)
          → or_none (
              if b
              then some (idx_of stream s ++ ((s.global + 1) ∷ []))
              else lookup other s.stream_idx)
            ≡ (if b then idx_of stream s ++ ((s.global + 1) ∷ []) else idx_of other s)
      pick true = refl
      pick false = refl

  version-grown :
      (stream other : String) (e : E) (s : Store E)
      → version other (grown stream e s)
        ≡ (if str_eq stream other then version stream s + 1 else version other s)
  unfolding count_in
  version-grown stream other e s =
      ap or_zero (lookup-insert stream other (version stream s + 1) s.versions)
      ∙ pick (str_eq stream other)
    where
      pick :
          (b : Bool)
          → or_zero (if b then some (version stream s + 1) else lookup other s.versions)
            ≡ (if b then version stream s + 1 else version other s)
      pick true = refl
      pick false = refl

  grown-numbers :
      (stream other : String) (e : E) (s : Store E)
      → IsStore s
      → All
          (λ g. (g ≤ s.global + 1) × (0 < length s.batch_starts + 1))
          (idx_of other (grown stream e s))
  grown-numbers stream other e s i =
      subst (All (λ g. (g ≤ s.global + 1) × (0 < length s.batch_starts + 1)))
        (sym (idx_of-grown stream other e s)) (pick (str_eq stream other))
    where
      old :
          (name : String)
          → All (λ g. (g ≤ s.global + 1) × (0 < length s.batch_starts + 1)) (idx_of name s)
      old name = widen s.global (length s.batch_starts) (idx_of name s) (i.numbers name)

      pick :
          (b : Bool)
          → All
              (λ g. (g ≤ s.global + 1) × (0 < length s.batch_starts + 1))
              (if b then idx_of stream s ++ ((s.global + 1) ∷ []) else idx_of other s)
      pick true = numbered_new s.global (length s.batch_starts) (idx_of stream s) (old stream)
      pick false = old other

  grown-counted :
      (stream other : String) (e : E) (s : Store E)
      → IsStore s
      → version other (grown stream e s) ≡ length (idx_of other (grown stream e s))
  grown-counted stream other e s i =
      version-grown stream other e s
      ∙ pick (str_eq stream other)
      ∙ ap length (sym (idx_of-grown stream other e s))
    where
      pick :
          (b : Bool)
          → (if b then version stream s + 1 else version other s)
            ≡ length (if b then idx_of stream s ++ ((s.global + 1) ∷ []) else idx_of other s)
      pick true =
          ap (λ n. n + 1) (i.counted stream)
          ∙ sym (length-append (idx_of stream s) ((s.global + 1) ∷ []))
      pick false = i.counted other

  pub grown-IsStore :
      (stream : String) (e : E) (s : Store E) → IsStore s → IsStore (grown stream e s)
  unfolding count_in
  grown-IsStore stream e s i = record {
    numbers = λ other.
        subst (λ k. All (λ g. (g ≤ s.global + 1) × (0 < k)) (idx_of other (grown stream e s)))
          (sym (length-append s.batch_starts ((s.global + 1) ∷ [])))
          (grown-numbers stream other e s i);
    starts = widen_starts s.global s.batch_starts i.starts;
    counted = λ other. grown-counted stream other e s i;
  }
