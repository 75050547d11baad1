-- ===== src/Storage/Records.antt =====
-- Sorted records of pkg/storage: what is found under a key.
use shardlands.Prelude.{
  ◌≡◌, refl, sym, ap, ◌∙◌, inl, inr, true, false, List, [], ◌∷◌, Option, none, some, if◌then◌else◌,
  Bool-cases,
}
use shardlands.Storage.Bytes.{
  Bytes, less, same, same_eq, same_sym, less_trans, less_not_same, less_total,
}
use shardlands.Storage.Memtable.{Rec}

-- The record under a key.
unfoldable pub find : Bytes → List Rec → Option Rec
find k [] = none
find k (x ∷ xs) = if same x.key k then some x else find k xs

-- Every key is less than the keys after it.
abbrev pub Above : Bytes → List Rec → Type 0
Above k [] = Unit
Above k (x ∷ xs) = (less k x.key ≡ true) × Above k xs

abbrev pub Ascending : List Rec → Type 0
Ascending [] = Unit
Ascending (x ∷ xs) = Above x.key xs × Ascending xs

pub Above-trans : (a b : Bytes) (xs : List Rec) → less a b ≡ true → Above b xs → Above a xs
Above-trans a b [] h g = tt
Above-trans a b (x ∷ xs) h g = (less_trans a b x.key h g.0, Above-trans a b xs h g.1)

pub find-Above : (k : Bytes) (xs : List Rec) → Above k xs → find k xs ≡ none
unfolding find
find-Above k [] g = refl
find-Above k (x ∷ xs) g =
    let apart = same_sym x.key k ∙ less_not_same k x.key g.0 in rw apart (find-Above k xs g.1)

-- put on a sorted list.
unfoldable pub put_sorted : Rec → List Rec → List Rec
put_sorted r [] = r ∷ []
put_sorted r (x ∷ xs) =
    let rest = put_sorted r xs in
    if less x.key r.key
    then x ∷ rest
    else if same x.key r.key
    then record x { val = r.val; tomb = r.tomb } ∷ xs
    else r ∷ x ∷ xs

pub find-same :
    (k : Bytes) (x : Rec) (xs : List Rec) → same x.key k ≡ true → find k (x ∷ xs) ≡ some x
unfolding find
find-same k x xs e = rw e refl

pub find-apart :
    (k : Bytes) (x : Rec) (xs : List Rec) → same x.key k ≡ false → find k (x ∷ xs) ≡ find k xs
unfolding find
find-apart k x xs e = rw e refl

find-updated :
    (k : Bytes) (r x : Rec) (xs : List Rec)
    → x.key ≡ r.key
    → find k (record x { val = r.val; tomb = r.tomb } ∷ xs)
      ≡ (if same r.key k then some r else find k (x ∷ xs))
find-updated k r x xs e =
    let new : Rec = record x { val = r.val; tomb = r.tomb } in
    let same_keys : same x.key k ≡ same r.key k = ap (λ key. same key k) e in
    let updated : ◌≡◌ {A = Rec} new r = ap (λ key. record r { key = key }) e in
    elim (Bool-cases (same r.key k)) [
      | inl here ↦ rw here (find-same k new xs (same_keys ∙ here) ∙ ap some updated)
      | inr apart ↦
          rw apart
            (find-apart k new xs (same_keys ∙ apart) ∙ sym (find-apart k x xs (same_keys ∙ apart)))
    ]

-- The record takes the place of the one under its key, and no other key changes.
pub find-put_sorted :
    (k : Bytes) (r : Rec) (xs : List Rec)
    → find k (put_sorted r xs) ≡ (if same r.key k then some r else find k xs)
unfolding find put_sorted
find-put_sorted k r [] = refl
find-put_sorted k r (x ∷ xs) = elim (Bool-cases (less x.key r.key)) [
  | inl low ↦ elim (Bool-cases (same x.key k)) [
    | inl here ↦
        let e = same_eq x.key k here in
        let other : same r.key k ≡ false =
          rw (← e) (same_sym r.key x.key ∙ less_not_same x.key r.key low) in
        rw (low, here, other) refl
    | inr there ↦ rw (low, there) (find-put_sorted k r xs)
  ]
  | inr high ↦ elim (Bool-cases (same x.key r.key)) [
    | inl eq ↦ rw (high, eq) (find-updated k r x xs (same_eq x.key r.key eq))
    | inr new ↦ rw (high, new) refl
  ]
]

put_sorted-Above :
    (k : Bytes) (r : Rec) (xs : List Rec)
    → less k r.key ≡ true
    → Above k xs
    → Above k (put_sorted r xs)
unfolding put_sorted
put_sorted-Above k r [] h g = (h, tt)
put_sorted-Above k r (x ∷ xs) h g = elim (Bool-cases (less x.key r.key)) [
  | inl low ↦ rw low (g.0, put_sorted-Above k r xs h g.1)
  | inr high ↦ elim (Bool-cases (same x.key r.key)) [
    | inl eq ↦ rw (high, eq) g
    | inr new ↦ rw (high, new) (h, g)
  ]
]

pub put_sorted-Ascending : (r : Rec) (xs : List Rec) → Ascending xs → Ascending (put_sorted r xs)
unfolding put_sorted
put_sorted-Ascending r [] h = (tt, tt)
put_sorted-Ascending r (x ∷ xs) h = elim (Bool-cases (less x.key r.key)) [
  | inl low ↦ rw low (put_sorted-Above x.key r xs low h.0, put_sorted-Ascending r xs h.1)
  | inr high ↦ elim (Bool-cases (same x.key r.key)) [
    | inl eq ↦ rw (high, eq) h
    | inr new ↦
        let below = less_total x.key r.key high new in
        rw (high, new) ((below, Above-trans r.key x.key xs below h.0), h)
  ]
]
