-- ===== src/Storage/Merge/Least.antt =====
-- The least head of sorted sources, and the sources without its key: one round of the merge of
-- pkg/storage/merge.go on the records alone.
use shardlands.Prelude.{
  ℕ, ◌+◌, ◌≤◌, ◌<◌, ◌≡◌, refl, sym, ap, subst, ◌∙◌, inl, inr, ◌⊎◌, true, false, List, [], ◌∷◌,
  Option, none, some, arith, length, Bool-cases, Option-cases,
}
use shardlands.Storage.Bytes.{
  Bytes, less, same, same_refl, same_eq, less_irrefl, less_trans, less_total, less_asym,
}
use shardlands.Storage.Records.{
  find, find-Above, find-apart, find-same, Above, Above-trans, Ascending,
}
use shardlands.Storage.Memtable.{Rec}
use shardlands.Storage.Merge.Lanes.{best_first, first_of, drop_all}

abbrev pub or_else : Option Rec → Option Rec → Option Rec
or_else none o = o
or_else (some r) o = some r

-- The record of the first list that has the key.
unfoldable pub layered : Bytes → List (List Rec) → Option Rec
layered k [] = none
layered k (l ∷ ls) = or_else (find k l) (layered k ls)

abbrev pub AllAscending : List (List Rec) → Type 0
AllAscending [] = Unit
AllAscending (l ∷ ls) = Ascending l × AllAscending ls

abbrev pub AllAbove : Bytes → List (List Rec) → Type 0
AllAbove k [] = Unit
AllAbove k (l ∷ ls) = Above k l × AllAbove k ls

unfoldable pub total_length : List (List Rec) → ℕ
total_length [] = 0
total_length (l ∷ ls) = length l + total_length ls

pub less_le_trans : (a b c : Bytes) → less a b ≡ true → less c b ≡ false → less a c ≡ true
less_le_trans a b c h g = elim (Bool-cases (same c b)) [
  | inl e ↦ subst (λ x. less a x ≡ true) (sym (same_eq c b e)) h
  | inr e ↦ less_trans a b c h (less_total c b g e)
]

find-under :
    (k : Bytes) (h : Rec) (t : List Rec)
    → Ascending (h ∷ t)
    → less k h.key ≡ true
    → find k (h ∷ t) ≡ none
find-under k h t s e = find-Above k (h ∷ t) (e, Above-trans k h.key t e s.0)

-- No first record is below the key.
abbrev NotBelow : Bytes → List (List Rec) → Type 0
NotBelow k [] = Unit
NotBelow k (l ∷ ls) = ((h : Rec) → first_of l ≡ some h → less h.key k ≡ false) × NotBelow k ls

-- What the second loop comes out with, from a best so far.
record IsBest (b : Rec) (ls : List (List Rec)) (out : Rec) : Type 0 where
  found : best_first (some b) ls ≡ some out
  least : NotBelow out.key ls
  from : (out ≡ b) ⊎ ((less out.key b.key ≡ true) × (layered out.key ls ≡ some out))

head_not_below :
    (h out : Rec)
    → less h.key out.key ≡ false
    → (x : Rec) → some h ≡ some x
    → less x.key out.key ≡ false
head_not_below h out e x p = let q : h ≡ x = cc in subst (λ y. less y.key out.key ≡ false) q e

IsBest-some : (b : Rec) (ls : List (List Rec)) → AllAscending ls → (out : Rec) × IsBest b ls out
unfolding best_first layered
IsBest-some b [] s = (b, record { found = refl; least = tt; from = inl refl })
IsBest-some b ([] ∷ ls) s =
    let (out, i) = IsBest-some b ls s.1 in
    (
      out,
      record {
        found = i.found;
        least = ((λ h e. cc), i.least);
        from = rw (find-Above out.key [] tt) i.from;
      },
    )
IsBest-some b ((h ∷ t) ∷ ls) s = elim (Bool-cases (less h.key b.key)) [
  | inl low ↦
      let (out, i) = IsBest-some h ls s.1 in
      (
        out,
        elim i.from [
          | inl e ↦
              let here = find-same h.key h t (same_refl h.key) in
              record {
                found = rw low i.found;
                least = (head_not_below h out (rw e (less_irrefl h.key)), i.least);
                from = inr (rw e low, rw e (rw here refl));
              }
          | inr (under, there) ↦ record {
            found = rw low i.found;
            least = (head_not_below h out (less_asym out.key h.key under), i.least);
            from = inr (
              less_trans out.key h.key b.key under low,
              rw (find-under out.key h t s.0 under) there,
            );
          }
        ],
      )
  | inr high ↦
      let (out, i) = IsBest-some b ls s.1 in
      (
        out,
        elim i.from [
          | inl e ↦ record {
            found = rw high i.found;
            least = (head_not_below h out (rw e high), i.least);
            from = inl e;
          }
          | inr (under, there) ↦
              let below = less_le_trans out.key b.key h.key under high in
              record {
                found = rw high i.found;
                least = (head_not_below h out (less_asym out.key h.key below), i.least);
                from = inr (under, rw (find-under out.key h t s.0 below) there);
              }
        ],
      )
]

-- What the second loop comes out with: the newest record of the least key, or nothing at the end.
pub record IsLeast (ls : List (List Rec)) (out : Rec) : Type 0 where
  pub found : best_first none ls ≡ some out
  pub least : NotBelow out.key ls
  pub newest : layered out.key ls ≡ some out

abbrev IsDrained : List (List Rec) → Type 0
IsDrained ls = (best_first none ls ≡ none) × ((k : Bytes) → layered k ls ≡ none)

pub best_none :
    (ls : List (List Rec)) → AllAscending ls → IsDrained ls ⊎ ((out : Rec) × IsLeast ls out)
unfolding best_first layered
best_none [] s = inl (refl, λ k. refl)
best_none ([] ∷ ls) s = elim (best_none ls s.1) [
  | inl (e, f) ↦ inl (e, λ k. rw (find-Above k [] tt) (f k))
  | inr (out, i) ↦ inr (
    out,
    record {
      found = i.found;
      least = ((λ h e. cc), i.least);
      newest = rw (find-Above out.key [] tt) i.newest;
    },
  )
]
best_none ((h ∷ t) ∷ ls) s =
    let (out, i) = IsBest-some h ls s.1 in
    inr (
      out,
      elim i.from [
        | inl e ↦ record {
          found = i.found;
          least = (head_not_below h out (rw e (less_irrefl h.key)), i.least);
          newest = rw e (rw (find-same h.key h t (same_refl h.key)) refl);
        }
        | inr (under, there) ↦ record {
          found = i.found;
          least = (head_not_below h out (less_asym out.key h.key under), i.least);
          newest = rw (find-under out.key h t s.0 under) there;
        }
      ],
    )

-- The third loop.
pub drop_all-AllAscending :
    (k : Bytes) (ls : List (List Rec)) → AllAscending ls → AllAscending (drop_all k ls)
unfolding drop_all
drop_all-AllAscending k [] s = tt
drop_all-AllAscending k ([] ∷ ls) s = (tt, drop_all-AllAscending k ls s.1)
drop_all-AllAscending k ((h ∷ t) ∷ ls) s = elim (Bool-cases (same h.key k)) [
  | inl e ↦ rw e (s.0.1, drop_all-AllAscending k ls s.1)
  | inr e ↦ rw e (s.0, drop_all-AllAscending k ls s.1)
]

pub layered-drop_all :
    (k o : Bytes) (ls : List (List Rec))
    → same o k ≡ false
    → layered k (drop_all o ls) ≡ layered k ls
unfolding drop_all layered
layered-drop_all k o [] d = refl
layered-drop_all k o ([] ∷ ls) d = ap (or_else (find k [])) (layered-drop_all k o ls d)
layered-drop_all k o ((h ∷ t) ∷ ls) d = elim (Bool-cases (same h.key o)) [
  | inl e ↦
      let apart = find-apart k h t (ap (λ x. same x k) (same_eq h.key o e) ∙ d) in
      rw (e, apart) (ap (or_else (find k t)) (layered-drop_all k o ls d))
  | inr e ↦ rw e (ap (or_else (find k (h ∷ t))) (layered-drop_all k o ls d))
]

pub drop_all-AllAbove :
    (k : Bytes) (ls : List (List Rec))
    → AllAscending ls
    → NotBelow k ls
    → AllAbove k (drop_all k ls)
unfolding drop_all
drop_all-AllAbove k [] s n = tt
drop_all-AllAbove k ([] ∷ ls) s n = (tt, drop_all-AllAbove k ls s.1 n.1)
drop_all-AllAbove k ((h ∷ t) ∷ ls) s n = elim (Bool-cases (same h.key k)) [
  | inl e ↦ rw e (subst (λ x. Above x t) (same_eq h.key k e) s.0.0, drop_all-AllAbove k ls s.1 n.1)
  | inr e ↦
      let over = less_total h.key k (n.0 h refl) e in
      rw e ((over, Above-trans k h.key t over s.0.0), drop_all-AllAbove k ls s.1 n.1)
]

-- Dropping keeps what lies above a key above it.
pub drop_all-keeps :
    (b k : Bytes) (ls : List (List Rec)) → AllAbove b ls → AllAbove b (drop_all k ls)
unfolding drop_all
drop_all-keeps b k [] a = tt
drop_all-keeps b k ([] ∷ ls) a = (tt, drop_all-keeps b k ls a.1)
drop_all-keeps b k ((h ∷ t) ∷ ls) a = elim (Bool-cases (same h.key k)) [
  | inl e ↦ rw e (a.0.1, drop_all-keeps b k ls a.1)
  | inr e ↦ rw e (a.0, drop_all-keeps b k ls a.1)
]

Above-find :
    (b k : Bytes) (r : Rec) (l : List Rec) → Above b l → find k l ≡ some r → less b r.key ≡ true
unfolding find
Above-find b k r [] a e = cc
Above-find b k r (x ∷ l) a e = elim (Bool-cases (same x.key k)) [
  | inl here ↦
      let q : some x ≡ some r = rw here at e in
      subst (λ y. less b y.key ≡ true) (some-injective q) a.0
  | inr apart ↦ Above-find b k r l a.1 (rw apart at e)
]
  where
    some-injective : {x y : Rec} → some x ≡ some y → x ≡ y
    some-injective e = cc

pub layered-AllAbove :
    (b k : Bytes) (r : Rec) (ls : List (List Rec))
    → AllAbove b ls
    → layered k ls ≡ some r
    → less b r.key ≡ true
unfolding layered
layered-AllAbove b k r [] a e = cc
layered-AllAbove b k r (l ∷ ls) a e = elim (Option-cases (find k l)) [
  | inl nothing ↦ layered-AllAbove b k r ls a.1 (rw nothing at e)
  | inr (x, there) ↦ Above-find b k r l a.0 (there ∙ (rw there at e))
]

-- A list that has the key, and nothing below it, starts with it.
head_same :
    (k : Bytes) (h r : Rec) (t : List Rec)
    → Ascending (h ∷ t)
    → less h.key k ≡ false
    → find k (h ∷ t) ≡ some r
    → same h.key k ≡ true
head_same k h r t s n e = elim (Bool-cases (same h.key k)) [
  | inl here ↦ here
  | inr apart ↦
      let clash : ◌≡◌ {A = Option Rec} none (some r) =
        sym (find-under k h t s (less_total h.key k n apart)) ∙ e in
      cc
]

total_length-drop_all :
    (k : Bytes) (ls : List (List Rec)) → total_length (drop_all k ls) ≤ total_length ls
unfolding drop_all total_length
total_length-drop_all k [] = omega arith
total_length-drop_all k ([] ∷ ls) = omega (arith, total_length-drop_all k ls)
total_length-drop_all k ((h ∷ t) ∷ ls) = ground (arith, total_length-drop_all k ls)

pub drop_all_shorter :
    (k : Bytes) (r : Rec) (ls : List (List Rec))
    → AllAscending ls
    → NotBelow k ls
    → layered k ls ≡ some r
    → total_length (drop_all k ls) < total_length ls
unfolding drop_all total_length layered
drop_all_shorter k r [] s n e = cc
drop_all_shorter k r ([] ∷ ls) s n e =
    omega (arith, drop_all_shorter k r ls s.1 n.1 (rw (find-Above k [] tt) at e))
drop_all_shorter k r ((h ∷ t) ∷ ls) s n e = elim (Option-cases (find k (h ∷ t))) [
  | inl nothing ↦ let rest = drop_all_shorter k r ls s.1 n.1 (rw nothing at e) in ground arith
  | inr (x, there) ↦
      rw (head_same k h x t s.0 (n.0 h refl) there) (omega (arith, total_length-drop_all k ls))
]
