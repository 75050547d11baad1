-- ===== src/Raft/Log.antt =====
-- The replicated log of pkg/raft/node.go. `log[i]` holds Raft index i + 1.
pub mod Agreement
use shardlands.Prelude.{
  ℕ, ◌+◌, ◌-◌, Bool, true, false, not, ◌||◌, Option, none, some, List, [], ◌∷◌, ◌++◌, ltb, ◌==◌,
  if◌then◌else◌, length, get_elem?, take,
}

-- An entry of the replicated log; the command is bytes.
pub record Entry : Type 0 where
  pub term : ℕ
  pub cmd : List ℕ

abbrev pub term_of : Option Entry → ℕ
term_of none = 0
term_of (some e) = e.term

-- termAtLocked: 0 for index 0 and past the end. The last read is in range.
unfoldable pub term_at : List Entry → ℕ → ℕ
term_at log idx =
    if (idx == 0) || ltb (length log) idx then 0 else term_of (get_elem? log (idx - 1))

-- lastLogIndexLocked
abbrev pub last_log_index : List Entry → ℕ
last_log_index log = length log

-- The loop of HandleAppendEntries over `req.Entries[i:]`, with `at` the index of its first entry.
-- The result is the log and whether it changed.
unfoldable pub append_loop : List Entry → ℕ → List Entry → List Entry × Bool
append_loop log at [] = (log, false)
append_loop log at (e ∷ es) =
    let rest = append_loop log (at + 1) es in
    if ltb (length log) at
    then (log ++ (e ∷ es), true)
    else if not (term_at log at == e.term)
    then (take (at - 1) log ++ (e ∷ es), true)
    else rest
