-- ===== src/Hashring/Replicas.antt =====
-- GetN of pkg/hashring/hashring.go: the nodes of a key.
use shardlands.Prelude.{
  ℕ, zero, suc, ◌+◌, ◌≤◌, ◌<◌, ◌≡◌, inl, inr, refl, false, ◌||◌, List, [], ◌∷◌, ◌++◌, String, arith,
  str_eq, str_eq_iff, leb, min, Bool-cases, length, get_elem?, length-append, ◌%◌, ◌==◌,
}
use shardlands.Hashring.Ring.{Ring, is_member, owner_at, search, get_n_loop, get_n}

-- No node is listed twice.
abbrev pub Unrepeated : List String → Type 0
Unrepeated [] = Unit
Unrepeated (x ∷ xs) = (is_member x xs ≡ false) × Unrepeated xs

is_member-append :
    (s x : String) (xs : List String)
    → is_member s (xs ++ (x ∷ [])) ≡ (is_member s xs || str_eq x s)
is_member-append s x [] = ground arith
is_member-append s x (y ∷ xs) = ground (arith, is_member-append s x xs)

append-Unrepeated :
    (x : String) (xs : List String)
    → is_member x xs ≡ false
    → Unrepeated xs
    → Unrepeated (xs ++ (x ∷ []))
append-Unrepeated x [] new u = (refl, tt)
append-Unrepeated x (y ∷ xs) new u = (
  ground (arith, is_member-append y x xs, str_eq_iff x y, str_eq_iff y x),
  append-Unrepeated x xs (ground arith) u.1,
)

leb-false : (a b : ℕ) → leb a b ≡ false → b < a
leb-false a b h = ground arith

module _ (checksum : String → ℕ) where
  get_n_loop-Unrepeated :
      (r : Ring) (n start left i : ℕ) (out : List String)
      → Unrepeated out
      → length out ≤ n
      → Unrepeated (get_n_loop checksum r n start left i out)
        × (length (get_n_loop checksum r n start left i out) ≤ n)
  unfolding get_n_loop
  get_n_loop-Unrepeated r n start zero i out u b = (u, b)
  get_n_loop-Unrepeated r n start (suc left) i out u b =
      let node = owner_at (get_elem? r.ring ((start + i) % length r.ring)) r.owner in
      elim (Bool-cases (leb n (length out))) [
        | inl full ↦ rw full (u, b)
        | inr room ↦ elim (Bool-cases (is_member node out)) [
          | inl seen ↦ rw room (rw seen (get_n_loop-Unrepeated r n start left (i + 1) out u b))
          | inr new ↦ rw room (
              rw new (
                get_n_loop-Unrepeated r n start left (i + 1) (out ++ (node ∷ []))
                  (append-Unrepeated node out new u)
                  (omega (arith, length-append out (node ∷ []), leb-false n (length out) room))))
        ]
      ]

  -- GetN lists no node twice, and at most n nodes.
  pub get_n-Unrepeated :
      (key : String) (n : ℕ) (r : Ring)
      → Unrepeated (get_n checksum key n r) × (length (get_n checksum key n r) ≤ n)
  unfolding get_n
  get_n-Unrepeated key n r = elim (Bool-cases ((length r.ring == 0) || (n == 0))) [
    | inl empty ↦ rw empty (tt, omega arith)
    | inr some_ ↦
        let (u, b) =
          get_n_loop-Unrepeated r (min n (length r.nodes)) (search (checksum key) r.ring)
            (length r.ring) 0 [] tt (omega arith) in
        rw some_ (u, omega (arith, b))
  ]
