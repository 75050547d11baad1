-- ===== src/Storage/Merge/Newest.antt =====
-- What the merge of pkg/storage/merge.go gives: for each key the record of the first source that
-- has one.
use shardlands.Prelude.{
  ℕ, zero, suc, ◌<◌, ◌≡◌, refl, sym, ap, subst, ◌∙◌, inl, inr, false, List, [], ◌∷◌, none, some,
  arith, Bool-cases,
}
use shardlands.Storage.Bytes.{Bytes, same, same_eq}
use shardlands.Storage.Records.{find, find-Above, find-apart, find-same, Above, Ascending}
use shardlands.Storage.Memtable.{Rec}
use shardlands.Storage.Merge.{Source, new_merge, clear, Lane, merge_next, collect}
use shardlands.Storage.Merge.Lanes.{
  contents, AllSound, fill_lem, best_head_lem, clear_lem, clear-AllSound, drop_all,
}
use shardlands.Storage.Merge.Least.{
  layered, AllAscending, AllAbove, total_length, IsLeast, best_none, drop_all-AllAscending,
  layered-drop_all, drop_all-AllAbove, drop_all-keeps, layered-AllAbove, drop_all_shorter,
}

-- What a merge has collected, of lanes that still had `ls` to give.
pub record IsMerged (ls : List (List Rec)) (out : List Rec) : Type 0 where
  pub ascending : Ascending out
  pub newest : (k : Bytes) → find k out ≡ layered k ls
  above : (b : Bytes) → AllAbove b ls → Above b out

IsMerged-step :
    (o : Rec) (ls : List (List Rec)) (rest : List Rec)
    → AllAscending ls
    → IsLeast ls o
    → IsMerged (drop_all o.key ls) rest
    → IsMerged ls (o ∷ rest)
IsMerged-step o ls rest s i m = record {
  ascending = (m.above o.key (drop_all-AllAbove o.key ls s i.least), m.ascending);
  newest = λ k. elim (Bool-cases (same o.key k)) [
    | inl here ↦
        find-same k o rest here ∙ sym i.newest ∙ ap (λ x. layered x ls) (same_eq o.key k here)
    | inr apart ↦ find-apart k o rest apart ∙ m.newest k ∙ layered-drop_all k o.key ls apart
  ];
  above =
      λ b a. (layered-AllAbove b o.key o ls a i.newest, m.above b (drop_all-keeps b o.key ls a));
}

collect-IsMerged :
    (fuel : ℕ) (ls : List Lane)
    → AllSound ls
    → AllAscending (contents ls)
    → total_length (contents ls) < fuel
    → (out : List Rec) × (collect fuel ls ≡ some out) × IsMerged (contents ls) out
unfolding collect merge_next
collect-IsMerged zero ls i s f = absurd (omega arith)
collect-IsMerged (suc fuel) ls i s f =
    let (ls', e, g) = fill_lem ls i in
    let now = contents ls' in
    let sorted : AllAscending now = subst AllAscending (sym g.kept) s in
    let head = best_head_lem none ls' g.ready in
    elim (best_none now sorted) [
      | inl (nothing, empty) ↦ (
        [],
        rw e (rw (head ∙ nothing) refl),
        subst (λ c. IsMerged c []) g.kept (nothing_merged now empty),
      )
      | inr (o, least) ↦
          let left = clear_lem o.key ls' g.ready in
          let shorter = drop_all_shorter o.key o now sorted least.least least.newest in
          let (rest, ec, m) =
            collect-IsMerged fuel (clear o.key ls') (clear-AllSound o.key ls' g.sound)
              (subst AllAscending (sym left) (drop_all-AllAscending o.key now sorted))
              (omega (arith, shorter, ap total_length left, ap total_length g.kept)) in
          (
            o ∷ rest,
            rw e (rw (head ∙ least.found) (rw ec refl)),
            subst (λ c. IsMerged c (o ∷ rest)) g.kept
                (IsMerged-step o now rest sorted least (subst (λ c. IsMerged c rest) left m)),
          )
    ]
  where
    nothing_merged : (c : List (List Rec)) → ((k : Bytes) → layered k c ≡ none) → IsMerged c []
    nothing_merged c empty = record {
      ascending = tt;
      newest = λ k. find-Above k [] tt ∙ sym (empty k);
      above = λ b a. tt;
    }

abbrev pub recs_of : List Source → List (List Rec)
recs_of [] = []
recs_of (x ∷ xs) = x.recs ∷ recs_of xs

abbrev pub AllWhole : List Source → Type 0
AllWhole [] = Unit
AllWhole (x ∷ xs) = (x.broken ≡ false) × AllWhole xs

new_merge-AllSound : (xs : List Source) → AllWhole xs → AllSound (new_merge xs)
unfolding new_merge
new_merge-AllSound [] w = tt
new_merge-AllSound (x ∷ xs) w = (record { whole = w.0; open_ = λ e. cc }, new_merge-AllSound xs w.1)

contents-new_merge : (xs : List Source) → contents (new_merge xs) ≡ recs_of xs
unfolding new_merge
contents-new_merge [] = refl
contents-new_merge (x ∷ xs) = ap (λ t. x.recs ∷ t) (contents-new_merge xs)

-- Merging sorted sources that do not fail ends, with one sorted list. Under every key the list
-- has the record of the first source that has one, so the newest wins.
pub merge_newest :
    (xs : List Source) (fuel : ℕ)
    → AllWhole xs
    → AllAscending (recs_of xs)
    → total_length (recs_of xs) < fuel
    → (out : List Rec) × (collect fuel (new_merge xs) ≡ some out)
      × Ascending out
      × ((k : Bytes) → find k out ≡ layered k (recs_of xs))
merge_newest xs fuel w s f =
    let same_lists = contents-new_merge xs in
    let (out, e, m) =
      collect-IsMerged fuel (new_merge xs) (new_merge-AllSound xs w)
        (subst AllAscending (sym same_lists) s) (omega (arith, ap total_length same_lists)) in
    (out, e, m.ascending, λ k. m.newest k ∙ ap (layered k) same_lists)
