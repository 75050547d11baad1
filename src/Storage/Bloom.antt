-- ===== src/Storage/Bloom.antt =====
-- The Bloom filter of pkg/storage/bloom.go. The bits are a list of Booleans. The number of probes
-- comes from floating point, so `0.69 * bitsPerKey` is a parameter of newBloom.
pub mod Members
use Prim.Native.Nat.{bit_xor, bit_or}
use shardlands.Prelude.{
  ℕ, zero, suc, ◌+◌, ◌*◌, ◌/◌, ◌%◌, Bool, true, false, ◌&&◌, List, [], ◌∷◌, Option, none, some, ltb,
  u64, if◌then◌else◌, length, get_elem?,
}
use shardlands.Storage.Bytes.{Bytes}

pub record Bloom : Type 0 where
  pub k : ℕ
  pub bits : List Bool

abbrev pub u32 : ℕ → ℕ
u32 n = n % 4294967296

unfoldable pub bloom_hash_from : ℕ → Bytes → ℕ
bloom_hash_from h [] = h
bloom_hash_from h (c ∷ bs) = bloom_hash_from (u64 (bit_xor h c * 1099511628211)) bs

-- bloomHash, FNV-1a
unfoldable pub bloom_hash : Bytes → ℕ
bloom_hash b = bloom_hash_from 14695981039346656037 b

abbrev pub set_at : ℕ → List Bool → List Bool
set_at i [] = []
set_at zero (b ∷ bs) = true ∷ bs
set_at (suc i) (b ∷ bs) = b ∷ set_at i bs

-- The i-th bit of a hash. Where uint32(nbits) is 0, the source panics; writeTable has that case.
unfoldable pub probe : ℕ → ℕ → ℕ → ℕ
probe h nbits i =
    let h1 = u32 h in
    let h2 = bit_or (u32 (h / 4294967296)) 1 in u32 (h1 + u32 (i * h2)) % u32 nbits

-- The inner loop of newBloom, for the first `left` probes.
unfoldable pub set_probes : ℕ → ℕ → ℕ → List Bool → List Bool
set_probes h nbits zero bits = bits
set_probes h nbits (suc i) bits = set_at (probe h nbits i) (set_probes h nbits i bits)

unfoldable pub set_hashes : ℕ → ℕ → List ℕ → List Bool → List Bool
set_hashes k nbits [] bits = bits
set_hashes k nbits (h ∷ hs) bits = set_hashes k nbits hs (set_probes h nbits k bits)

abbrev pub zeros : ℕ → List Bool
zeros zero = []
zeros (suc n) = false ∷ zeros n

-- The number of probes, and of bits, of newBloom.
abbrev pub clamp_k : ℕ → ℕ
clamp_k k = if ltb k 1 then 1 else if ltb 30 k then 30 else k

unfoldable pub bits_for : ℕ → ℕ → ℕ
bits_for n bits_per_key =
    let nbits = if ltb (n * bits_per_key) 64 then 64 else n * bits_per_key in (nbits + 7) / 8 * 8

-- newBloom
unfoldable pub new_bloom : (ℕ → ℕ) → List ℕ → ℕ → Bloom
new_bloom optimal hashes bits_per_key =
    let nbits = bits_for (length hashes) bits_per_key in
    let k = clamp_k (optimal bits_per_key) in
    record { k = k; bits = set_hashes k nbits hashes (zeros nbits) }

abbrev pub is_set : Option Bool → Bool
is_set (some true) = true
is_set _ = false

unfoldable pub all_set : ℕ → List Bool → ℕ → Bool
all_set h bits zero = true
all_set h bits (suc i) = is_set (get_elem? bits (probe h (length bits) i)) && all_set h bits i

-- mayContain
unfoldable pub may_contain : Bloom → ℕ → Bool
may_contain b h = all_set h b.bits b.k
