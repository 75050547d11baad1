-- ===== src/Hashring/Ring.antt =====
-- The ring of pkg/hashring/hashring.go. CRC-32 is not the repository's: it is the parameter
-- `checksum`. sort.Search is the first index that passes, as it is on a sorted ring, and
-- sort.Slice is an insertion sort.
use Prim.Native.String.{◌++◌ as cat}
use shardlands.Prelude.{
  ℕ, zero, suc, ◌+◌, ◌/◌, ◌%◌, Bool, true, false, not, ◌||◌, List, [], ◌∷◌, ◌++◌, Option, none,
  some, String, str_eq, ◌==◌, leb, min, if◌then◌else◌, length, get_elem?,
}

pub record Ring : Type 0 where
  pub replicas : ℕ
  pub ring : List ℕ
  -- A position and its node; a missing position has none.
  pub owner : ℕ → Option String
  -- The set of registered nodes.
  pub nodes : List String

-- New, on an argument that is not negative.
unfoldable pub new_ring : ℕ → Ring
new_ring replicas = record {
  replicas = if leb replicas 0 then 1 else replicas;
  ring = [];
  owner = λ k. none;
  nodes = [];
}

abbrev or_nine : Option String → String
or_nine none = "9"
or_nine (some s) = s

-- The byte '0' + d of a digit d.
abbrev digit : ℕ → String
digit d = or_nine (get_elem? ("0" ∷ "1" ∷ "2" ∷ "3" ∷ "4" ∷ "5" ∷ "6" ∷ "7" ∷ "8" ∷ []) d)

-- The loop of itoa, from the last digit; a number has fewer digits than its value.
unfoldable pub itoa_loop : ℕ → ℕ → String → String
itoa_loop zero i b = b
itoa_loop (suc fuel) i b = if i == 0 then b else itoa_loop fuel (i / 10) (cat (digit (i % 10)) b)

unfoldable pub itoa : ℕ → String
itoa i = if i == 0 then "0" else itoa_loop i i ""

unfoldable pub vnode_key : String → ℕ → String
vnode_key node i = cat (cat node "#") (itoa i)

abbrev pub is_member : String → List String → Bool
is_member s [] = false
is_member s (x ∷ xs) = str_eq x s || is_member s xs

abbrev pub is_taken : Option String → Bool
is_taken none = false
is_taken (some _) = true

-- A read of the owner map: a missing position reads "".
abbrev pub or_empty : Option String → String
or_empty none = ""
or_empty (some s) = s

-- sort.Slice by <
abbrev pub insert_sorted : ℕ → List ℕ → List ℕ
insert_sorted h [] = h ∷ []
insert_sorted h (x ∷ xs) = if leb h x then h ∷ x ∷ xs else x ∷ insert_sorted h xs

unfoldable pub sort : List ℕ → List ℕ
sort [] = []
sort (x ∷ xs) = insert_sorted x (sort xs)

-- The body of Add's inner loop: a position that is taken stays with its owner.
unfoldable pub place : ℕ → String → Ring → Ring
place h node r = if is_taken (r.owner h) then r else record r {
  owner = λ k. if k == h then some node else r.owner k;
  ring = r.ring ++ (h ∷ []);
}

module _ (checksum : String → ℕ) where
  -- Add's inner loop, from i with `left` rounds to go.
  unfoldable pub place_all : ℕ → ℕ → String → Ring → Ring
  place_all zero i node r = r
  place_all (suc left) i node r =
      place_all left (i + 1) node (place (checksum (vnode_key node i)) node r)

  -- Add's outer loop, with `changed`.
  unfoldable pub add_loop : List String → Bool → Ring → Bool × Ring
  add_loop [] changed r = (changed, r)
  add_loop (node ∷ nodes) changed r =
      if str_eq node "" || is_member node r.nodes
      then add_loop nodes changed r
      else add_loop nodes true (place_all r.replicas 0 node (record r { nodes = node ∷ r.nodes }))

  -- Add
  unfoldable pub add : List String → Ring → Ring
  add nodes r =
      let (changed, r') = add_loop nodes false r in
      if changed then record r' { ring = sort r'.ring } else r'

-- delete(r.nodes, node)
abbrev pub unregister : String → List String → List String
unregister node [] = []
unregister node (x ∷ xs) = let rest = unregister node xs in if str_eq x node then rest else x ∷ rest

-- delete(r.owner, h)
abbrev pub disown : ℕ → (ℕ → Option String) → ℕ → Option String
disown h owner k = if k == h then none else owner k

-- Remove's loop: the positions that are kept, and the owners.
unfoldable pub remove_loop : String → List ℕ → (ℕ → Option String) → List ℕ × (ℕ → Option String)
remove_loop node [] owner = ([], owner)
remove_loop node (h ∷ hs) owner =
    let gone = remove_loop node hs (disown h owner) in
    let (kept, owner') = remove_loop node hs owner in
    if str_eq (or_empty (owner h)) node then gone else (h ∷ kept, owner')

-- Remove
unfoldable pub remove : String → Ring → Ring
remove node r =
    if not (is_member node r.nodes)
    then r
    else let (kept, owner') = remove_loop node r.ring r.owner in
      record r { nodes = unregister node r.nodes; ring = kept; owner = owner' }

-- sort.Search for the first position from h on.
abbrev pub search : ℕ → List ℕ → ℕ
search h [] = 0
search h (x ∷ xs) = if leb h x then 0 else suc (search h xs)

-- r.owner[r.ring[i]]; the index is in range wherever the source reads it.
abbrev pub owner_at : Option ℕ → (ℕ → Option String) → String
owner_at none owner = ""
owner_at (some h) owner = or_empty (owner h)

-- The index of Get: past the end the ring starts again.
abbrev pub wrap : ℕ → List ℕ → ℕ
wrap i ring = if i == length ring then 0 else i

module _ (checksum : String → ℕ) where
  -- Get; an empty ring has "".
  unfoldable pub get : String → Ring → String
  get key r = owner_at (get_elem? r.ring (wrap (search (checksum key) r.ring) r.ring)) r.owner

  -- GetN's loop, from i with `left` rounds to go; `out` is also the set of seen nodes.
  unfoldable pub get_n_loop : Ring → ℕ → ℕ → ℕ → ℕ → List String → List String
  get_n_loop r n start zero i out = out
  get_n_loop r n start (suc left) i out =
      let node = owner_at (get_elem? r.ring ((start + i) % length r.ring)) r.owner in
      let skipped = get_n_loop r n start left (i + 1) out in
      let taken = get_n_loop r n start left (i + 1) (out ++ (node ∷ [])) in
      if leb n (length out) then out else if is_member node out then skipped else taken

  -- GetN
  unfoldable pub get_n : String → ℕ → Ring → List String
  get_n key n r =
      if (length r.ring == 0) || (n == 0)
      then []
      else get_n_loop r (min n (length r.nodes)) (search (checksum key) r.ring) (length r.ring) 0 []
