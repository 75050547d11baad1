-- ===== src/Es/Examples.antt =====
-- The theorem on pkg/es at a store with one event of one stream and one of another.
use shardlands.Prelude.{List, length, ℕ, ◌≡◌, refl, true, [], ◌∷◌, String, lookup, insert}
use shardlands.Prelude.Int.{pos, negsuc}
use shardlands.Es.Store.{
  Event, Store, ok, empty_store, append, count_in, numbered, read_stream, read_loop, search_after,
  batch_start_for, get_batch,
}
use shardlands.Es.Opening.{Call, run, open_store, open_store-run, scan_batches, in_order}
use shardlands.Es.Growing.{IsStore, grown}
use shardlands.Es.Keeping.{empty_store-IsStore, grown-IsStore}
use shardlands.Es.Appending.{read_stream-append}

abbrev two : Store String
two = grown "b" "second" (grown "a" "first" empty_store)

abbrev event : String → ℕ → ℕ → String → Event String
event stream global seq text = record {
  global = global;
  stream = stream;
  seq = seq;
  data_of = text;
}

two-IsStore : IsStore two
two-IsStore =
    grown-IsStore "b" "second" (grown "a" "first" empty_store)
      (grown-IsStore "a" "first" empty_store empty_store-IsStore)

two_append :
    append true "a" (pos 1) ("third" ∷ []) two
    ≡ ok (event "a" 3 2 "third" ∷ [], grown "a" "third" two)
unfolding append numbered count_in lookup insert
two_append = refl

two_read : read_stream "a" 0 0 two ≡ ok (event "a" 1 1 "first" ∷ [])
unfolding count_in read_stream read_loop search_after batch_start_for get_batch lookup insert
two_read = refl

read_stream-append_example :
    read_stream "a" 0 0 (grown "a" "third" two)
    ≡ ok (event "a" 1 1 "first" ∷ event "a" 3 2 "third" ∷ [])
read_stream-append_example =
    read_stream-append true "a" "a" (pos 1) "third" two (grown "a" "third" two)
      (event "a" 3 2 "third" ∷ []) (event "a" 1 1 "first" ∷ []) two-IsStore two_append two_read

abbrev calls : List (Call String)
calls =
    record { put_ok = true; stream = "a"; expected = negsuc 0; events = "first" ∷ "second" ∷ [] }
    ∷ record { put_ok = true; stream = "b"; expected = pos 0; events = "third" ∷ [] }
    ∷ record { put_ok = true; stream = "a"; expected = pos 0; events = "fourth" ∷ [] }
    ∷ []

two_batches : length (run calls empty_store).db ≡ 2
unfolding run append numbered count_in lookup insert
two_batches = refl

open_store-run_example : open_store (run calls empty_store).db ≡ run calls empty_store
open_store-run_example = open_store-run calls

-- A gap in the numbers, which Open hides: it returns the store without the batch.
gap_hidden :
    (open_store {E = String} (
      (2, record { stream = "a"; first_seq = 1; first_global = 2; events = "late" ∷ [] })
      ∷ [])).global
    ≡ 0
unfolding scan_batches in_order lookup insert count_in
gap_hidden = refl
