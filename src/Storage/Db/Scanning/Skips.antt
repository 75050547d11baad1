-- ===== src/Storage/Db/Scanning/Skips.antt =====
-- The records from a key on, as the iterators of pkg/storage give them.
use shardlands.Prelude.{
  ℕ, ◌≡◌, refl, sym, ap, subst, ◌∙◌, inl, inr, Bool, true, false, List, [], ◌∷◌, Option, none,
  if◌then◌else◌, Bool-cases,
}
use shardlands.Storage.Bytes.{Bytes, less, same, same_eq}
use shardlands.Storage.Memtable.{Rec, SkipNode, items}
use shardlands.Storage.Memtable.Search.{drop_less}
use shardlands.Storage.Records.{find, find-apart, find-Above, Ascending, Above-trans}
use shardlands.Storage.Merge.Least.{less_le_trans, or_else, layered, AllAscending}
use shardlands.Storage.Table.{skip_below}

module _ (crc : Bytes → ℕ) where
  pub items-drop_less :
      (from : Bytes) (xs : List SkipNode)
      → items (drop_less from xs) ≡ skip_below crc from (items xs)
  unfolding drop_less skip_below
  items-drop_less from [] = refl
  items-drop_less from (x ∷ xs) = elim (Bool-cases (less x.item.key from)) [
    | inl low ↦
        ap (λ b. items (if b then drop_less from xs else x ∷ xs)) low
        ∙ items-drop_less from xs
        ∙ ap (λ b. if b then skip_below crc from (items xs) else items (x ∷ xs)) (sym low)
    | inr high ↦
        ap (λ b. items (if b then drop_less from xs else x ∷ xs)) high
        ∙ ap (λ b. if b then skip_below crc from (items xs) else items (x ∷ xs)) (sym high)
  ]

  skip_below_low :
      (from : Bytes) (x : Rec) (xs : List Rec)
      → less x.key from ≡ true
      → skip_below crc from (x ∷ xs) ≡ skip_below crc from xs
  unfolding skip_below
  skip_below_low from x xs e = ap (λ b. if b then skip_below crc from xs else x ∷ xs) e

  skip_below_high :
      (from : Bytes) (x : Rec) (xs : List Rec)
      → less x.key from ≡ false
      → skip_below crc from (x ∷ xs) ≡ x ∷ xs
  unfolding skip_below
  skip_below_high from x xs e = ap (λ b. if b then skip_below crc from xs else x ∷ xs) e

  skip_below-Ascending :
      (from : Bytes) (xs : List Rec) → Ascending xs → Ascending (skip_below crc from xs)
  skip_below-Ascending from [] a = unfold skip_below in tt
  skip_below-Ascending from (x ∷ xs) a = elim (Bool-cases (less x.key from)) [
    | inl low ↦ rw (skip_below_low from x xs low) (skip_below-Ascending from xs a.1)
    | inr high ↦ rw (skip_below_high from x xs high) a
  ]

  -- The keys from `from` on are left.
  find-skip_below :
      (k from : Bytes) (xs : List Rec)
      → Ascending xs
      → find k (skip_below crc from xs) ≡ (if less k from then none else find k xs)
  find-skip_below k from [] a = unfold skip_below find in (either (less k from))
    where
      either : (b : Bool) → ◌≡◌ {A = Option Rec} none (if b then none else none)
      either true = refl
      either false = refl
  find-skip_below k from (x ∷ xs) a = elim (Bool-cases (less x.key from)) [
    | inl low ↦
        ap (find k) (skip_below_low from x xs low) ∙ find-skip_below k from xs a.1 ∙ dropped low
    | inr high ↦ ap (find k) (skip_below_high from x xs high) ∙ kept high
  ]
    where
      dropped :
          less x.key from ≡ true
          → (if less k from then none else find k xs)
            ≡ (if less k from then none else find k (x ∷ xs))
      dropped low = elim (Bool-cases (same x.key k)) [
        | inl here ↦
            let under : less k from ≡ true =
              subst (λ b. less b from ≡ true) (same_eq x.key k here) low in
            rw under refl
        | inr apart ↦ ap (λ o. if less k from then none else o) (sym (find-apart k x xs apart))
      ]

      kept :
          less x.key from ≡ false
          → find k (x ∷ xs) ≡ (if less k from then none else find k (x ∷ xs))
      kept high = elim (Bool-cases (less k from)) [
        | inr on ↦ rw on refl
        | inl under ↦
            let low = less_le_trans k from x.key under high in
            rw under (find-Above k (x ∷ xs) (low, Above-trans k x.key xs low a.0))
      ]

  abbrev pub skip_all : Bytes → List (List Rec) → List (List Rec)
  skip_all from [] = []
  skip_all from (l ∷ ls) = skip_below crc from l ∷ skip_all from ls

  pub skip_all-AllAscending :
      (from : Bytes) (ls : List (List Rec)) → AllAscending ls → AllAscending (skip_all from ls)
  skip_all-AllAscending from [] a = tt
  skip_all-AllAscending from (l ∷ ls) a =
      (skip_below-Ascending from l a.0, skip_all-AllAscending from ls a.1)

  pub layered-skip_all :
      (k from : Bytes) (ls : List (List Rec))
      → AllAscending ls
      → layered k (skip_all from ls) ≡ (if less k from then none else layered k ls)
  unfolding layered
  layered-skip_all k from [] a = either (less k from)
    where
      either : (b : Bool) → ◌≡◌ {A = Option Rec} none (if b then none else none)
      either true = refl
      either false = refl
  layered-skip_all k from (l ∷ ls) a =
      rw (find-skip_below k from l a.0, layered-skip_all k from ls a.1) (either (less k from))
    where
      either :
          (b : Bool)
          → or_else (if b then none else find k l) (if b then none else layered k ls)
            ≡ (if b then none else or_else (find k l) (layered k ls))
      either true = refl
      either false = refl
