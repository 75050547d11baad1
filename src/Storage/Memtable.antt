-- ===== src/Storage/Memtable.antt =====
-- The memtable of pkg/storage/memtable.go, a skip list. It is the list of its nodes in the order
-- of level 0, each with its height: the pointer of a node at a level is the next node that is
-- higher than the level. The random number generator is a list of draws.
pub mod Search
pub mod Laws
use shardlands.Prelude.{
  ℕ, zero, suc, ◌+◌, ◌-◌, Bool, true, false, List, [], ◌∷◌, ◌++◌, Option, none, some, ltb, ◌==◌,
  if◌then◌else◌, length, take,
}
use shardlands.Prelude.Int.{ℤ, pos, ◌+ℤ◌, ◌-ℤ◌}
use shardlands.Storage.Bytes.{Bytes, less, same}

-- rec of types.go
pub record Rec : Type 0 where
  pub key : Bytes
  pub val : Bytes
  pub tomb : Bool

pub record SkipNode : Type 0 where
  pub item : Rec
  pub height : ℕ

-- `size` counts up and down with the values.
pub record Memtable : Type 0 where
  pub nodes : List SkipNode
  pub rng : List ℕ
  pub size : ℤ
  pub n : ℕ

abbrev pub skip_max_height : ℕ
skip_max_height = 12

-- newMemtable
unfoldable pub new_memtable : List ℕ → Memtable
new_memtable rng = record { nodes = []; rng = rng; size = pos 0; n = 0 }

-- The loop of randomHeight, with `left` levels to go; a draw is rng.Intn(4).
unfoldable pub random_height : ℕ → ℕ → List ℕ → ℕ × List ℕ
random_height h zero rng = (h, rng)
random_height h (suc left) [] = (h, [])
random_height h (suc left) (d ∷ rng) =
    let higher = random_height (h + 1) left rng in if d == 0 then higher else (h, rng)

-- The inner loop at a level. `cur` is what follows the current node on level 0, and `rest` is
-- the part of it that is still to be looked through for the next node on the level.
unfoldable pub advance : ℕ → Bytes → List SkipNode → List SkipNode → List SkipNode
advance lvl k cur [] = cur
advance lvl k cur (x ∷ rest) =
    let on = advance lvl k rest rest in
    let past = advance lvl k cur rest in
    if ltb lvl x.height then (if less x.item.key k then on else cur) else past

-- The outer loop, down from a level.
unfoldable pub descend : ℕ → Bytes → List SkipNode → List SkipNode
descend zero k cur = cur
descend (suc lvl) k cur = descend lvl k (advance lvl k cur cur)

-- The search that put, get and iterFrom share: what follows prev[0].
unfoldable pub seek : Bytes → List SkipNode → List SkipNode
seek k nodes = descend skip_max_height k nodes

abbrev pub match_head : Bytes → List SkipNode → Option Rec
match_head k [] = none
match_head k (c ∷ cs) = if same c.item.key k then some c.item else none

-- get
unfoldable pub get : Bytes → Memtable → Option Rec
get k m = match_head k (seek k m.nodes)

abbrev pub size_of : Bytes → ℤ
size_of b = pos (length b)

-- The nodes before the place that was found.
abbrev pub before : List SkipNode → List SkipNode → List SkipNode
before nodes found = take (length nodes - length found) nodes

-- The new node, linked in on each of its levels.
abbrev pub link_new : Rec → List SkipNode → ℕ × List ℕ → Memtable → Memtable
link_new r found (h, rng) m = record {
  nodes = before m.nodes found ++ (record { item = r; height = h } ∷ found);
  rng = rng;
  size = m.size +ℤ pos (length r.key + length r.val + 16);
  n = m.n + 1;
}

-- put, once the place is found: an equal key keeps its node and its key.
abbrev pub put_at : Rec → List SkipNode → Memtable → Memtable
put_at r [] m = link_new r [] (random_height 1 11 m.rng) m
put_at r (c ∷ cs) m =
    if same c.item.key r.key
    then record m {
      nodes =
          before m.nodes (c ∷ cs)
          ++ (record c { item = record c.item { val = r.val; tomb = r.tomb } } ∷ cs);
      size = m.size +ℤ (size_of r.val -ℤ size_of c.item.val);
    }
    else link_new r (c ∷ cs) (random_height 1 11 m.rng) m

-- put
unfoldable pub put : Rec → Memtable → Memtable
put r m = put_at r (seek r.key m.nodes) m

abbrev pub items : List SkipNode → List Rec
items [] = []
items (x ∷ xs) = x.item ∷ items xs

-- iterFrom, as the records that it goes through; iter is from the empty key.
unfoldable pub iter_from : Bytes → Memtable → List Rec
iter_from from m = items (seek from m.nodes)
