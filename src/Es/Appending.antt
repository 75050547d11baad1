-- ===== src/Es/Appending.antt =====
-- Append of pkg/es/es.go, of one event, and what ReadStream returns afterwards.
use shardlands.Prelude.{
  ℕ, suc, ◌+◌, ◌-◌, ◌≡◌, inl, inr, refl, sym, ap, subst, ◌∙◌, Bool, true, false, List, [], ◌∷◌,
  ◌++◌, Option, none, some, String, arith, ltb, ◌==◌, str_eq, str_eq_iff, str_eq_refl,
  if◌then◌else◌, length, get_elem?, Bool-cases,
}
use shardlands.Es.Store.{
  Batch, Event, Store, panicked, Answer, ok, err, version, idx_of, get_batch, batch_start_for,
  prepend, take_event, from_batch, read_loop, no_batch_yet, read_stream,
}
use shardlands.Prelude.Int.{ℤ, pos, negsuc}
use shardlands.Es.Store.{append, at_version, write, numbered, version_conflict, no_name}
use shardlands.Es.Growing.{
  IsStore, grown, newest, snoc, read_loop-grown, read_loop-new, read_stream_all,
}
use shardlands.Es.Keeping.{idx_of-grown}

of_ok : {A : Type 0} {x y : A} → ok x ≡ ok y → x ≡ y
of_ok h = cc

module _ {E : Type 0} where
  at_version-ok :
      (expected : ℤ) (current : ℕ) (next : Answer (List (Event E) × Store E))
      (r : List (Event E) × Store E)
      → at_version expected current next ≡ ok r
      → next ≡ ok r
  at_version-ok (negsuc n) current next r a = a
  at_version-ok (pos n) current next r a = elim (Bool-cases (n == current)) [
    | inl same ↦ let b : next ≡ ok r = rw same at a in b
    | inr other ↦ let b : err version_conflict ≡ ok r = rw other at a in cc
  ]

  at_version-same :
      (n current : ℕ) (next : Answer (List (Event E) × Store E)) (r : List (Event E) × Store E)
      → at_version (pos n) current next ≡ ok r
      → n ≡ current
  at_version-same n current next r a = elim (Bool-cases (n == current)) [
    | inl same ↦ ground arith
    | inr other ↦ let b : err version_conflict ≡ ok r = rw other at a in cc
  ]

  pub append-version :
      (put_ok : Bool) (stream : String) (n : ℕ) (e : E) (s : Store E) (r : List (Event E) × Store E)
      → append put_ok stream (pos n) (e ∷ []) s ≡ ok r
      → n ≡ version stream s
  unfolding append
  append-version put_ok stream n e s r a = elim (Bool-cases (str_eq stream "")) [
    | inl unnamed ↦ let b : err no_name ≡ ok r = rw unnamed at a in cc
    | inr named ↦
        let next = write put_ok stream (e ∷ []) s in
        let b : at_version (pos n) (version stream s) next ≡ ok r = rw named at a in
        at_version-same n (version stream s) next r b
  ]

  write-grown :
      (put_ok : Bool) (stream : String) (e : E) (s s' : Store E) (added : List (Event E))
      → write put_ok stream (e ∷ []) s ≡ ok (added, s')
      → (added ≡ newest stream (version stream s + 1) e s ∷ []) × (s' ≡ grown stream e s)
  unfolding numbered
  write-grown false stream e s s' added a = cc
  write-grown true stream e s s' added a =
      let b = of_ok a in (sym (ap (λ p. p.0) b), sym (ap (λ p. p.1) b))

  -- An Append that goes through returns the event with its numbers.
  pub append-grown :
      (put_ok : Bool) (stream : String) (expected : ℤ) (e : E) (s s' : Store E)
      (added : List (Event E))
      → append put_ok stream expected (e ∷ []) s ≡ ok (added, s')
      → (added ≡ newest stream (version stream s + 1) e s ∷ []) × (s' ≡ grown stream e s)
  unfolding append
  append-grown put_ok stream expected e s s' added a = elim (Bool-cases (str_eq stream "")) [
    | inl unnamed ↦ let b : err no_name ≡ ok (added, s') = rw unnamed at a in cc
    | inr named ↦
        let b : at_version expected (version stream s) (write put_ok stream (e ∷ []) s)
            ≡ ok (added, s') =
          rw named at a in
        write-grown put_ok stream e s s' added
          (at_version-ok expected (version stream s) (write put_ok stream (e ∷ []) s) (added, s') b)
  ]

  read_stream-grown :
      (stream : String) (e : E) (s : Store E)
      → IsStore s
      → read_stream stream 0 0 (grown stream e s)
        ≡ snoc (newest stream (version stream s + 1) e s) (read_stream stream 0 0 s)
  read_stream-grown stream e s i =
      let added : idx_of stream (grown stream e s) ≡ idx_of stream s ++ ((s.global + 1) ∷ []) =
        idx_of-grown stream stream e s ∙ rw (str_eq_refl stream) refl in
      let place : version stream s + 1 ≡ 1 + length (idx_of stream s) =
        omega (arith, i.counted stream) in
      read_stream_all stream (grown stream e s)
      ∙ ap (λ l. read_loop stream 1 0 no_batch_yet l (grown stream e s)) added
      ∙ read_loop-new stream e s 1 0 no_batch_yet (idx_of stream s) (version stream s + 1) i
          (omega arith) (i.numbers stream) place
      ∙ ap (snoc (newest stream (version stream s + 1) e s)) (sym (read_stream_all stream s))

  pub read_stream-grown_other :
      (stream other : String) (e : E) (s : Store E)
      → IsStore s
      → str_eq stream other ≡ false
      → read_stream other 0 0 (grown stream e s) ≡ read_stream other 0 0 s
  read_stream-grown_other stream other e s i apart =
      let kept : idx_of other (grown stream e s) ≡ idx_of other s =
        idx_of-grown stream other e s ∙ rw apart refl in
      read_stream_all other (grown stream e s)
      ∙ ap (λ l. read_loop other 1 0 no_batch_yet l (grown stream e s)) kept
      ∙ read_loop-grown other stream e s 1 0 no_batch_yet (idx_of other s) i (i.numbers other)
      ∙ sym (read_stream_all other s)

  -- If an Append of one event returns no error, then ReadStream of a whole stream, which read
  -- without an error, reads as before, and of the stream appended to it reads the events of
  -- before and then the event that Append returned. The store is in the order in which such
  -- Appends keep a new store: it numbers no event above the last and none without a batch, and
  -- versions count the events of the streams.
  pub read_stream-append :
      (put_ok : Bool) (stream other : String) (expected : ℤ) (e : E) (s s' : Store E)
      (added es : List (Event E))
      → IsStore s
      → append put_ok stream expected (e ∷ []) s ≡ ok (added, s')
      → read_stream other 0 0 s ≡ ok es
      → read_stream other 0 0 s' ≡ ok (if str_eq stream other then es ++ added else es)
  read_stream-append put_ok stream other expected e s s' added es i a read =
      let did = append-grown put_ok stream expected e s s' added a in
      rw (did.0, did.1)
        (elim (Bool-cases (str_eq stream other)) [
          | inl same ↦
              let names : stream ≡ other = ground (arith, str_eq_iff stream other) in
              rw same (
                subst
                  (λ name.
                    read_stream name 0 0 (grown stream e s)
                    ≡ ok (es ++ (newest stream (version stream s + 1) e s ∷ [])))
                  names
                  (read_stream-grown stream e s i
                    ∙ ap (snoc (newest stream (version stream s + 1) e s))
                        (subst (λ name. read_stream name 0 0 s ≡ ok es) (sym names) read)))
          | inr apart ↦ rw apart (read_stream-grown_other stream other e s i apart ∙ read)
        ])

  prepend-length :
      (x : Event E) (n : ℕ) (r : Answer (List (Event E)))
      → ((es : List (Event E)) → r ≡ ok es → length es ≡ n)
      → (es : List (Event E)) → prepend x r ≡ ok es
      → length es ≡ suc n
  prepend-length x n (ok l) h es a =
      let same : (x ∷ l) ≡ es = of_ok a in ap length (sym same) ∙ ap suc (h l refl)
  prepend-length x n (err f) h es a = cc

  from_batch-length :
      (stream : String) (g seq n : ℕ) (o : Option (Batch E)) (f : Batch E → Answer (List (Event E)))
      → ((b : Batch E) (es : List (Event E)) → f b ≡ ok es → length es ≡ n)
      → (es : List (Event E)) → from_batch stream g seq o f ≡ ok es
      → length es ≡ suc n
  from_batch-length stream g seq n none f h es a = cc
  from_batch-length stream g seq n (some b) f h es a = elim (Bool-cases (ltb g b.first_global)) [
    | inl before ↦ let no : err panicked ≡ ok es = rw before at a in cc
    | inr inside ↦ taken (get_elem? b.events (g - b.first_global)) (rw inside at a)
  ]
    where
      taken : (o : Option E) → take_event stream g seq o (f b) ≡ ok es → length es ≡ suc n
      taken none q = cc
      taken (some e) q =
          prepend-length (record { global = g; stream = stream; seq = seq; data_of = e }) n (f b)
            (h b) es q

  read_loop-length :
      (stream : String) (seq start : ℕ) (cached : Batch E) (gs : List ℕ) (s : Store E)
      (es : List (Event E))
      → read_loop stream seq start cached gs s ≡ ok es
      → length es ≡ length gs
  unfolding read_loop
  read_loop-length stream seq start cached [] s es a =
      let same : [] ≡ es = of_ok a in ap length (sym same)
  read_loop-length stream seq start cached (g ∷ gs) s es a =
      let next = batch_start_for g s.batch_starts in
      from_batch-length stream g seq (length gs)
        (if next == start then some cached else get_batch next s.db)
        (λ b. read_loop stream (seq + 1) next b gs s)
        (λ b. read_loop-length stream (seq + 1) next b gs s) es a

  -- A whole stream has as many events as its version says.
  pub read_stream-length :
      (stream : String) (s : Store E) (es : List (Event E))
      → IsStore s
      → read_stream stream 0 0 s ≡ ok es
      → length es ≡ version stream s
  read_stream-length stream s es i read =
      read_loop-length stream 1 0 no_batch_yet (idx_of stream s) s es
        (sym (read_stream_all stream s) ∙ read)
      ∙ sym (i.counted stream)
