-- ===== src/Store/Drained.antt =====
-- The samples of the queue in the table, after the last loop of `sqlite_store_thread`.
use mathlib.Core.Path.{subst}
use i_mx6ull_water_qualit.Base.{
  ℕ, suc, ◌+◌, ◌≤◌, ◌<◌, ◌≡◌, ◌⊎◌, inl, inr, refl, ap, ◌∙◌, arith, ◌==◌, true, false, List, [], ◌∷◌,
  ◌++◌, Option, some, Run, done, length, u32, All,
}
use i_mx6ull_water_qualit.Base.Int.{ℤ, pos}
use i_mx6ull_water_qualit.Sample.{Sample}
use i_mx6ull_water_qualit.SampleQueue.{SampleQueue, Wake, success, queue_count}
use i_mx6ull_water_qualit.SampleQueue.Wait.{pop}
use i_mx6ull_water_qualit.SampleQueue.Fifo.{Fifo}
use i_mx6ull_water_qualit.SampleQueue.Front.{without_first, pop_front}
use i_mx6ull_water_qualit.SampleQueue.Refine.{Represents}
use i_mx6ull_water_qualit.SampleQueue.Refine.Pop.{size}
use i_mx6ull_water_qualit.Database.{Row, Sqlite}
use i_mx6ull_water_qualit.Database.Laws.{new_row, Documented}
use i_mx6ull_water_qualit.Store.Insert.{insert_exact}
use i_mx6ull_water_qualit.Store.Thread.{Storing, write_sample, after_pop, take_sample, store_drain}

module _ {F : Type 0} (device_id : List ℕ) where
  -- The samples in their order, each either a new row with an id above all others or lost in an
  -- insertion that failed; how many of each.
  abbrev pub Stored : List (Sample F) → List (Row F) → List (Row F) → ℕ → ℕ → Type 0
  Stored [] rows after written lost = (after ≡ rows) × (written ≡ 0) × (lost ≡ 0)
  Stored (x ∷ xs) rows after written lost =
      ((id : ℕ) × All (λ r. r.id < id) rows
        × (n : ℕ) × (written ≡ suc n)
        × Stored xs (rows ++ new_row id device_id x ∷ []) after n lost)
      ⊎ ((n : ℕ) × (lost ≡ suc n) × Stored xs rows after written n)

module _ {D F P : Type 0} (sqlite : Sqlite D F P) (rows : D → List (Row F))
    (documented : Documented sqlite rows) (device_id : List ℕ) (blank : Sample F) where
  -- the context after the queue `q` has given its samples `xs` to the connection `d`
  pub record Drained (xs : List (Sample F)) (s : Storing D F) (d : D)
      (result : Run (Option (Storing D F))) : Type 0 where
    pub after : Storing D F
    pub returns : result ≡ done (some after)
    pub db : D
    pub open_still : after.db ≡ some db
    pub written : ℕ
    pub lost : ℕ
    pub stored : Stored device_id xs (rows d) (rows db) written lost
    pub empties : queue_count after.store_queue ≡ 0
    pub counter : after.sample_counter ≡ s.sample_counter + length xs
    pub writes : (n : ℕ) → s.write_count ≡ u32 n → after.write_count ≡ u32 (n + written)
    pub fails : (n : ℕ) → s.write_fail_count ≡ u32 n → after.write_fail_count ≡ u32 (n + lost)

  -- a context with its queue and its connection
  abbrev pub holding : SampleQueue (Sample F) → D → Storing D F → Storing D F
  holding q d s = record s { store_queue = some q; db = some d }

  abbrev row_added : D → Storing D F → Storing D F
  row_added d s = record s {
    db = some d;
    sample_counter = s.sample_counter + 1;
    write_count = u32 (s.write_count + 1);
  }

  abbrev row_missed : D → Storing D F → Storing D F
  row_missed d s = record s {
    db = some d;
    sample_counter = s.sample_counter + 1;
    write_fail_count = u32 (s.write_fail_count + 1);
  }

  -- what one sample does
  write_sample_case :
      (x : Sample F) (q : SampleQueue (Sample F)) (d : D) (s : Storing D F)
      → (after : D) × (((write_sample sqlite (some device_id) x (holding q d s)
              ≡ holding q after (row_added after s))
            × ((id : ℕ) × All (λ r. r.id < id) (rows d)
                × (rows after ≡ rows d ++ new_row id device_id x ∷ [])))
          ⊎ ((write_sample sqlite (some device_id) x (holding q d s)
                ≡ holding q after (row_missed after s))
              × (rows after ≡ rows d)))
  unfolding write_sample
  write_sample_case x q d s =
      let (result, after, e, case) = insert_exact sqlite rows documented d device_id x in
      (
        after,
        elim case [ inl w ↦ inl (rw (e, w.0) refl, w.1) | inr w ↦ inr (rw (e, w.0) refl, w.1) ],
      )

  pub drained_empty :
      (rounds : List (List (Wake (Sample F)))) (q : SampleQueue (Sample F)) (d : D)
      (s : Storing D F)
      → q.count ≡ 0
      → store_drain sqlite (some device_id) rounds (holding q d s) ≡ done (some (holding q d s))
  unfolding store_drain queue_count
  drained_empty [] q d s e = rw e refl
  drained_empty (wakes ∷ rounds) q d s e = rw e refl

  take_next :
      (timeout : ℤ) (wakes : List (Wake (Sample F))) (q after : SampleQueue (Sample F)) (d : D)
      (s : Storing D F) (x : Sample F)
      → pop (some q) true timeout wakes ≡ done (some (success, some x, some after))
      → take_sample sqlite (some device_id) timeout wakes (holding q d s)
        ≡ done (some (true, write_sample sqlite (some device_id) x (holding after d s)))
  unfolding take_sample after_pop
  take_next timeout wakes q after d s x e = rw e refl

  drained_next :
      (wakes : List (Wake (Sample F))) (rounds : List (List (Wake (Sample F))))
      (q after : SampleQueue (Sample F)) (d : D) (s : Storing D F) (x : Sample F)
      → (q.count == 0) ≡ false
      → pop (some q) true (pos 100) wakes ≡ done (some (success, some x, some after))
      → store_drain sqlite (some device_id) (wakes ∷ rounds) (holding q d s)
        ≡ store_drain sqlite
            (some device_id)
            rounds
            (write_sample sqlite (some device_id) x (holding after d s))
  unfolding store_drain queue_count
  drained_next wakes rounds q after d s x h e =
      rw (h, take_next (pos 100) wakes q after d s x e) refl

  abbrev drained : List (List (Wake (Sample F))) → Storing D F → Run (Option (Storing D F))
  drained rounds s = store_drain sqlite (some device_id) rounds s

  -- one more sample in front
  one_written :
      (x : Sample F) (xs : List (Sample F)) (s : Storing D F) (d next : D)
      {rest result : Run (Option (Storing D F))}
      → result ≡ rest
      → ((id : ℕ) × All (λ r. r.id < id) (rows d)
          × (rows next ≡ rows d ++ new_row id device_id x ∷ []))
      → Drained xs (row_added next s) next rest
      → Drained (x ∷ xs) s d result
  one_written x xs s d next e (id, above, r) t = record {
    after = t.after;
    returns = e ∙ t.returns;
    db = t.db;
    open_still = t.open_still;
    written = suc t.written;
    lost = t.lost;
    stored = inl (
      id,
      above,
      t.written,
      refl,
      subst (λ before. Stored device_id xs before (rows t.db) t.written t.lost) r t.stored,
    );
    empties = t.empties;
    counter = omega (arith, t.counter);
    writes = λ n c. t.writes (n + 1) (omega arith) ∙ ap u32 {x = n + 1 + t.written} (omega arith);
    fails = λ n c. t.fails n c;
  }

  one_lost :
      (x : Sample F) (xs : List (Sample F)) (s : Storing D F) (d next : D)
      {rest result : Run (Option (Storing D F))}
      → result ≡ rest
      → rows next ≡ rows d
      → Drained xs (row_missed next s) next rest
      → Drained (x ∷ xs) s d result
  one_lost x xs s d next e r t = record {
    after = t.after;
    returns = e ∙ t.returns;
    db = t.db;
    open_still = t.open_still;
    written = t.written;
    lost = suc t.lost;
    stored = inr (
      t.lost,
      refl,
      subst (λ before. Stored device_id xs before (rows t.db) t.written t.lost) r t.stored,
    );
    empties = t.empties;
    counter = omega (arith, t.counter);
    writes = λ n c. t.writes n c;
    fails = λ n c. t.fails (n + 1) (omega arith) ∙ ap u32 {x = n + 1 + t.lost} (omega arith);
  }

  -- The last loop of the thread, on a queue of `n` samples and a database that may fail, ends within
  -- `n` rounds: the queue is empty, and its samples stand in the table in their order, each a new row,
  -- but for those whose insertion failed; the three counters count the samples, the rows and the
  -- failures, the last two modulo 2^32.
  pub drain-stores :
      (rounds : List (List (Wake (Sample F)))) (q : SampleQueue (Sample F)) (f : Fifo (Sample F))
      (xs : List (Sample F)) (d : D) (s : Storing D F)
      → Represents blank q f
      → f.items ≡ xs
      → length xs ≤ length rounds
      → Drained xs s d (store_drain sqlite (some device_id) rounds (holding q d s))
  unfolding queue_count
  drain-stores rounds q f [] d s repr i h =
      let e : q.count ≡ 0 = omega (arith, size blank repr, ap length i) in
      record {
        after = holding q d s;
        returns = drained_empty rounds q d s e;
        db = d;
        open_still = refl;
        written = 0;
        lost = 0;
        stored = (refl, refl, refl);
        empties = e;
        counter = omega arith;
        writes = λ n c. c ∙ ap u32 {y = n + 0} (omega arith);
        fails = λ n c. c ∙ ap u32 {y = n + 0} (omega arith);
      }
  drain-stores [] q f (x ∷ xs) d s repr i h = absurd (omega arith)
  drain-stores (wakes ∷ rounds) q f (x ∷ xs) d s repr i h =
      let (after, e, repr_after) = pop_front blank (pos 100) wakes q f x xs repr i in
      let nonempty : (q.count == 0) ≡ false = ground (arith, size blank repr, ap length i) in
      let step = drained_next wakes rounds q after d s x nonempty e in
      let (next, case) = write_sample_case x after d s in
      elim case [
        | inl w ↦ one_written x xs s d next (step ∙ ap (drained rounds) w.0) w.1 (
            drain-stores rounds after (without_first xs f) xs next (row_added next s) repr_after
              refl (omega arith))
        | inr w ↦ one_lost x xs s d next (step ∙ ap (drained rounds) w.0) w.1 (
            drain-stores rounds after (without_first xs f) xs next (row_missed next s) repr_after
              refl (omega arith))
      ]
