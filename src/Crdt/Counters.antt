-- ===== src/Crdt/Counters.antt =====
-- The grow-only counter, pkg/crdt/gcounter.go, and the counter that goes both ways,
-- pkg/crdt/pncounter.go. A map of counts is a value, so Clone and State are the counter itself.
use shardlands.Prelude.{ℕ, ◌+◌, [], String, Dict, insert, count_of, u64, ltb, ◌-◌, if◌then◌else◌}
use shardlands.Prelude.Int.{ℤ, pos, negsuc}
use shardlands.Counts.{merge_counts, total}

pub record GCounter : Type 0 where
  pub counts : Dict ℕ

unfoldable pub new_g : GCounter
new_g = record { counts = [] }

-- GCounter.Increment
unfoldable pub increment : String → ℕ → GCounter → GCounter
increment node delta g = record {
  counts = insert node (u64 (count_of node g.counts + delta)) g.counts;
}

-- GCounter.Value: additions modulo 2^64 come to the sum modulo 2^64.
unfoldable pub value : GCounter → ℕ
value g = u64 (total g.counts)

-- GCounter.Merge
unfoldable pub merge : GCounter → GCounter → GCounter
merge g other = record { counts = merge_counts g.counts other.counts }

unfoldable pub clone : GCounter → GCounter
clone g = record { counts = g.counts }

pub record PnCounter : Type 0 where
  pub p : GCounter
  pub n : GCounter

unfoldable pub new_pn : PnCounter
new_pn = record { p = new_g; n = new_g }

unfoldable pub pn_increment : String → ℕ → PnCounter → PnCounter
pn_increment node delta c = record c { p = increment node delta c.p }

unfoldable pub pn_decrement : String → ℕ → PnCounter → PnCounter
pn_decrement node delta c = record c { n = increment node delta c.n }

-- int64 of a uint64: two's complement.
abbrev pub to_int64 : ℕ → ℤ
to_int64 a = if ltb a 9223372036854775808 then pos a else negsuc (18446744073709551615 - a)

-- PNCounter.Value: the difference of the two int64 wraps, as that of the uint64 does.
unfoldable pub pn_value : PnCounter → ℤ
pn_value c = to_int64 (u64 (value c.p + (18446744073709551616 - value c.n)))

unfoldable pub pn_merge : PnCounter → PnCounter → PnCounter
pn_merge c other = record { p = merge c.p other.p; n = merge c.n other.n }

unfoldable pub pn_clone : PnCounter → PnCounter
pn_clone c = record { p = clone c.p; n = clone c.n }
