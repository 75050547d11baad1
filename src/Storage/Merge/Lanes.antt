-- ===== src/Storage/Merge/Lanes.antt =====
-- The lanes of a merge of pkg/storage/merge.go as the lists that they still have to give.
use shardlands.Prelude.{
  ◌≡◌, refl, sym, ap, ◌∙◌, inl, inr, Bool, true, false, List, [], ◌∷◌, Option, none, some,
  if◌then◌else◌, Bool-cases,
}
use mathlib.Core.Bool.{false≢true}
use shardlands.Storage.Bytes.{Bytes, same}
use shardlands.Storage.Memtable.{Rec}
use shardlands.Storage.Merge.{Lane, fill_one, fill, better, best_head, cleared, clear}

-- What a lane still has to give.
abbrev pub content_of : Option Rec → List Rec → List Rec
content_of none rs = rs
content_of (some h) rs = h ∷ rs

abbrev pub contents : List Lane → List (List Rec)
contents [] = []
contents (l ∷ ls) = content_of l.head l.src.recs ∷ contents ls

-- A lane that was never marked as done with records left, and whose source does not fail.
pub record IsSound (l : Lane) : Type 0 where
  pub whole : l.src.broken ≡ false
  pub open_ : l.finished ≡ true → l.src.recs ≡ []

abbrev pub AllSound : List Lane → Type 0
AllSound [] = Unit
AllSound (l ∷ ls) = IsSound l × AllSound ls

-- After the first loop a lane without a head has nothing left.
abbrev pub IsFilled : List Lane → Type 0
IsFilled [] = Unit
IsFilled (l ∷ ls) = (l.head ≡ none → l.src.recs ≡ []) × IsFilled ls

-- What fill does to a lane: what it has to give stays.
record Filled (l l' : Lane) : Type 0 where
  pub sound : IsSound l'
  pub kept : content_of l'.head l'.src.recs ≡ content_of l.head l.src.recs
  pub ready : l'.head ≡ none → l'.src.recs ≡ []

abbrev lane : List Rec → Bool → Option Rec → Bool → Lane
lane rs broken head finished = record {
  src = record { recs = rs; broken = broken };
  head = head;
  finished = finished;
}

fill_parts :
    (rs : List Rec) (broken : Bool) (head : Option Rec) (finished : Bool)
    → IsSound (lane rs broken head finished)
    → (l' : Lane) × (fill_one (lane rs broken head finished) ≡ some l')
      × Filled (lane rs broken head finished) l'
fill_parts rs broken (some h) finished i =
    (lane rs broken (some h) finished, refl, record { sound = i; kept = refl; ready = λ e. cc })
fill_parts rs broken none true i =
    (lane rs broken none true, refl, record { sound = i; kept = refl; ready = λ e. i.open_ refl })
fill_parts rs true none false i = absurd (false≢true (sym i.whole))
fill_parts [] false none false i = (
  lane [] false none true,
  refl,
  record { sound = record { whole = refl; open_ = λ e. refl }; kept = refl; ready = λ e. refl },
)
fill_parts (r ∷ rs) false none false i = (
  lane rs false (some r) false,
  refl,
  record { sound = record { whole = refl; open_ = λ e. cc }; kept = refl; ready = λ e. cc },
)

-- The first loop fails on no sound lanes.
pub record FilledAll (ls ls' : List Lane) : Type 0 where
  pub sound : AllSound ls'
  pub kept : contents ls' ≡ contents ls
  pub ready : IsFilled ls'

pub fill_lem :
    (ls : List Lane) → AllSound ls → (ls' : List Lane) × (fill ls ≡ some ls') × FilledAll ls ls'
unfolding fill
fill_lem [] i = ([], refl, record { sound = tt; kept = refl; ready = tt })
fill_lem (l ∷ ls) i =
    let (l', e, f) = fill_parts l.src.recs l.src.broken l.head l.finished i.0 in
    let (ls', es, fs) = fill_lem ls i.1 in
    (
      l' ∷ ls',
      rw (e, es) refl,
      record {
        sound = (f.sound, fs.sound);
        kept = ap2 f.kept fs.kept;
        ready = (f.ready, fs.ready);
      },
    )
  where
    ap2 :
        {a b : List Rec} {xs ys : List (List Rec)}
        → a ≡ b
        → xs ≡ ys
        → ◌≡◌ {A = List (List Rec)} (a ∷ xs) (b ∷ ys)
    ap2 p q = rw (p, q) refl

-- The second and third loops on what the lanes have to give.
abbrev pub first_of : List Rec → Option Rec
first_of [] = none
first_of (r ∷ rs) = some r

unfoldable pub best_first : Option Rec → List (List Rec) → Option Rec
best_first best [] = best
best_first best (l ∷ ls) = best_first (better best (first_of l)) ls

abbrev pub drop_key : Bytes → List Rec → List Rec
drop_key k [] = []
drop_key k (r ∷ rs) = if same r.key k then rs else r ∷ rs

unfoldable pub drop_all : Bytes → List (List Rec) → List (List Rec)
drop_all k [] = []
drop_all k (l ∷ ls) = drop_key k l ∷ drop_all k ls

first_of-content :
    (head : Option Rec) (rs : List Rec)
    → (head ≡ none → rs ≡ [])
    → first_of (content_of head rs) ≡ head
first_of-content none rs f = rw (f refl) refl
first_of-content (some h) rs f = refl

pub best_head_lem :
    (best : Option Rec) (ls : List Lane)
    → IsFilled ls
    → best_head best ls ≡ best_first best (contents ls)
unfolding best_head best_first
best_head_lem best [] f = refl
best_head_lem best (l ∷ ls) f =
    best_head_lem (better best l.head) ls f.1
    ∙ sym (
        ap (λ h. best_first (better best h) (contents ls)) (first_of-content l.head l.src.recs f.0))

cleared_lem :
    (k : Bytes) (head : Option Rec) (rs : List Rec)
    → (head ≡ none → rs ≡ [])
    → content_of (cleared k head) rs ≡ drop_key k (content_of head rs)
cleared_lem k none rs f = rw (f refl) refl
cleared_lem k (some h) rs f = elim (Bool-cases (same h.key k)) [
  | inl e ↦ rw e refl
  | inr e ↦ rw e refl
]

pub clear_lem :
    (k : Bytes) (ls : List Lane) → IsFilled ls → contents (clear k ls) ≡ drop_all k (contents ls)
unfolding clear drop_all
clear_lem k [] f = refl
clear_lem k (l ∷ ls) f = rw (cleared_lem k l.head l.src.recs f.0, clear_lem k ls f.1) refl

pub clear-AllSound : (k : Bytes) (ls : List Lane) → AllSound ls → AllSound (clear k ls)
unfolding clear
clear-AllSound k [] i = tt
clear-AllSound k (l ∷ ls) i =
    (record { whole = i.0.whole; open_ = i.0.open_ }, clear-AllSound k ls i.1)
