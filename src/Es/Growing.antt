-- ===== src/Es/Growing.antt =====
-- ReadStream of pkg/es/es.go after an Append of one event: its loop, over the numbers that were
-- there and over the new one.
use shardlands.Prelude.{
  ℕ, suc, ◌+◌, ◌-◌, ◌≡◌, ◌≤◌, ◌<◌, inl, inr, refl, ap, ◌∙◌, true, false, List, [], ◌∷◌, ◌++◌,
  Option, none, some, String, arith, ltb, ◌==◌, if◌then◌else◌, length, drop, get_elem?, Bool-cases,
  All,
}
use shardlands.Es.Store.{
  Batch, Event, Store, panicked, Answer, ok, err, version, idx_of, get_batch, count_in, with_batch,
  batch_start_for, prepend, take_event, from_batch, read_loop, no_batch_yet, limited, read_stream,
}
use shardlands.Es.Starts.{batch_start_for-le, batch_start_for-append, batch_start_for_new}

module _ {E : Type 0} where
  -- What the store keeps: no number above the last, a batch for every number, and versions that
  -- count.
  pub record IsStore (s : Store E) : Type 0 where
    pub numbers :
        (stream : String)
        → All (λ g. (g ≤ s.global) × (0 < length s.batch_starts)) (idx_of stream s)
    pub starts : All (λ b. b ≤ s.global) s.batch_starts
    pub counted : (stream : String) → version stream s ≡ length (idx_of stream s)

  abbrev pub grown : String → E → Store E → Store E
  grown stream e s = count_in stream (e ∷ []) (with_batch stream (e ∷ []) s)

  get_batch_old :
      (n g : ℕ) (b : Batch E) (db : List (ℕ × Batch E))
      → g ≤ n
      → get_batch g ((n + 1, b) ∷ db) ≡ get_batch g db
  unfolding get_batch
  get_batch_old n g b db h = let other : (n + 1 == g) ≡ false = ground arith in rw other refl

  get_batch_new :
      (n : ℕ) (b : Batch E) (db : List (ℕ × Batch E)) → get_batch n ((n, b) ∷ db) ≡ some b
  unfolding get_batch
  get_batch_new n b db = let same : (n == n) ≡ true = ground arith in rw same refl

  from_batch-rest :
      (stream : String) (g seq : ℕ) (o : Option (Batch E))
      (f f' : Batch E → Answer (List (Event E)))
      → ((b : Batch E) → f b ≡ f' b)
      → from_batch stream g seq o f ≡ from_batch stream g seq o f'
  from_batch-rest stream g seq none f f' h = refl
  from_batch-rest stream g seq (some b) f f' h =
      ap
        (λ r.
          if ltb g b.first_global
          then err panicked
          else take_event stream g seq (get_elem? b.events (g - b.first_global)) r)
        (h b)

  -- The numbers that were there read as they did.
  pub read_loop-grown :
      (stream at : String) (e : E) (s : Store E) (seq start : ℕ) (cached : Batch E) (gs : List ℕ)
      → IsStore s
      → All (λ g. (g ≤ s.global) × (0 < length s.batch_starts)) gs
      → read_loop stream seq start cached gs (grown at e s) ≡ read_loop stream seq start cached gs s
  unfolding read_loop count_in
  read_loop-grown stream at e s seq start cached [] i h = refl
  read_loop-grown stream at e s seq start cached (g ∷ gs) i h =
      let b : Batch E = record {
        stream = at;
        first_seq = version at s + 1;
        first_global = s.global + 1;
        events = e ∷ [];
      } in
      let next = batch_start_for g s.batch_starts in
      rw
        (
          batch_start_for-append s.global g s.batch_starts h.0.0 h.0.1,
          get_batch_old s.global next b s.db
              (batch_start_for-le s.global g s.batch_starts i.starts),
        )
        (from_batch-rest stream g seq (if next == start then some cached else get_batch next s.db)
          (λ b. read_loop stream (seq + 1) next b gs (grown at e s))
          (λ b. read_loop stream (seq + 1) next b gs s)
          (λ b. read_loop-grown stream at e s (seq + 1) next b gs i h.1))

  abbrev pub snoc : Event E → Answer (List (Event E)) → Answer (List (Event E))
  snoc x (ok es) = ok (es ++ (x ∷ []))
  snoc x (err f) = err f

  prepend-snoc :
      (x y : Event E) (r : Answer (List (Event E))) → prepend y (snoc x r) ≡ snoc x (prepend y r)
  prepend-snoc x y (ok es) = refl
  prepend-snoc x y (err f) = refl

  take_event-snoc :
      (stream : String) (g seq : ℕ) (x : Event E) (o : Option E) (r : Answer (List (Event E)))
      → take_event stream g seq o (snoc x r) ≡ snoc x (take_event stream g seq o r)
  take_event-snoc stream g seq x none r = refl
  take_event-snoc stream g seq x (some e) r =
      prepend-snoc x (record { global = g; stream = stream; seq = seq; data_of = e }) r

  from_batch-snoc :
      (stream : String) (g seq : ℕ) (x : Event E) (o : Option (Batch E))
      (f f' : Batch E → Answer (List (Event E)))
      → ((b : Batch E) → f b ≡ snoc x (f' b))
      → from_batch stream g seq o f ≡ snoc x (from_batch stream g seq o f')
  from_batch-snoc stream g seq x none f f' h = refl
  from_batch-snoc stream g seq x (some b) f f' h =
      rw (h b) (elim (Bool-cases (ltb g b.first_global)) [
        | inl before ↦ rw before refl
        | inr inside ↦
            rw inside
              (take_event-snoc stream g seq x (get_elem? b.events (g - b.first_global)) (f' b))
      ])

  abbrev pub newest : String → ℕ → E → Store E → Event E
  newest stream seq e s = record { global = s.global + 1; stream = stream; seq = seq; data_of = e }

  from_batch-newest :
      (stream : String) (e : E) (s : Store E) (seq : ℕ) (rest : Batch E → Answer (List (Event E)))
      → from_batch stream
          (s.global + 1)
          seq
          (some (record {
            stream = stream;
            first_seq = version stream s + 1;
            first_global = s.global + 1;
            events = e ∷ [];
          }))
          rest
        ≡ prepend (newest stream seq e s) (
            rest (record {
              stream = stream;
              first_seq = version stream s + 1;
              first_global = s.global + 1;
              events = e ∷ [];
            }))
  from_batch-newest stream e s seq rest =
      let inside : ltb (s.global + 1) (s.global + 1) ≡ false = ground arith in
      let first : (s.global + 1) - (s.global + 1) ≡ 0 = omega arith in rw (inside, first) refl

  -- The number that is new reads as the new event.
  pub read_loop-new :
      (stream : String) (e : E) (s : Store E) (seq start : ℕ) (cached : Batch E) (gs : List ℕ)
      (m : ℕ)
      → IsStore s
      → start ≤ s.global
      → All (λ g. (g ≤ s.global) × (0 < length s.batch_starts)) gs
      → m ≡ seq + length gs
      → read_loop stream seq start cached (gs ++ ((s.global + 1) ∷ [])) (grown stream e s)
        ≡ snoc (newest stream m e s) (read_loop stream seq start cached gs s)
  unfolding read_loop count_in
  read_loop-new stream e s seq start cached [] m i low h q =
      let b : Batch E = record {
        stream = stream;
        first_seq = version stream s + 1;
        first_global = s.global + 1;
        events = e ∷ [];
      } in
      let fresh : (s.global + 1 == start) ≡ false = ground arith in
      let now : seq ≡ m = omega arith in
      rw
        (
          batch_start_for_new s.global s.batch_starts i.starts,
          fresh,
          get_batch_new (s.global + 1) b s.db,
        )
        (from_batch-newest stream e s seq (λ b. ok [])
          ∙ ap (λ k. ok (newest stream k e s ∷ [])) now)
  read_loop-new stream e s seq start cached (g ∷ gs) m i low h q =
      let b : Batch E = record {
        stream = stream;
        first_seq = version stream s + 1;
        first_global = s.global + 1;
        events = e ∷ [];
      } in
      let next = batch_start_for g s.batch_starts in
      let below : next ≤ s.global = batch_start_for-le s.global g s.batch_starts i.starts in
      let later : m ≡ (seq + 1) + length gs = omega arith in
      rw
        (
          batch_start_for-append s.global g s.batch_starts h.0.0 h.0.1,
          get_batch_old s.global next b s.db below,
        )
        (from_batch-snoc stream g seq (newest stream m e s)
          (if next == start then some cached else get_batch next s.db)
          (λ b. read_loop stream (seq + 1) next b (gs ++ ((s.global + 1) ∷ [])) (grown stream e s))
          (λ b. read_loop stream (seq + 1) next b gs s)
          (λ b. read_loop-new stream e s (seq + 1) next b gs m i below h.1 later))

  pub read_stream_all :
      (stream : String) (s : Store E)
      → read_stream stream 0 0 s ≡ read_loop stream 1 0 no_batch_yet (idx_of stream s) s
  unfolding read_stream read_loop
  read_stream_all stream s = from_list (idx_of stream s)
    where
      from_list :
          (idx : List ℕ)
          → (if ltb (length idx) 1
              then ok []
              else read_loop stream 1 0 no_batch_yet (limited 0 (drop 0 idx)) s)
            ≡ read_loop stream 1 0 no_batch_yet idx s
      from_list [] = refl
      from_list (g ∷ gs) = let more : ltb (suc (length gs)) 1 ≡ false = ground arith in rw more refl
