-- ===== src/SampleQueue/Refine/Pop.antt =====
-- Taking the oldest sample, and `Fifo.pop`.
use mathlib.Core.List.{head?}
use mathlib.Core.Option
use mathlib.Core.Path.{subst}
use i_mx6ull_water_qualit.Base.{
  ℕ, suc, ◌+◌, ◌-◌, ◌%◌, ◌<◌, ◌≡◌, refl, sym, ap, ◌∙◌, arith, true, List, [], ◌∷◌, none, some, done,
  length, drop, get_or, load-eq-done, u32, ◌⊎◌, zero,
}
use i_mx6ull_water_qualit.SampleQueue.{SampleQueue, success, failure}
use i_mx6ull_water_qualit.SampleQueue.Commit.{commit_pop}
use i_mx6ull_water_qualit.SampleQueue.Segment.{segment, length-segment, index_step}
use i_mx6ull_water_qualit.SampleQueue.Fifo
use i_mx6ull_water_qualit.SampleQueue.Fifo.{Fifo}
use i_mx6ull_water_qualit.SampleQueue.Valid.{IsValid, contents_of_ne_zero}
use i_mx6ull_water_qualit.SampleQueue.Refine.{Represents}

module _ {A : Type 0} (blank : A) where
  -- What a pop does: it gives the oldest sample, or -1 from an empty queue.
  pub record Popped (q : SampleQueue A) (f : Fifo A) : Type 0 where
    pub after : SampleQueue A
    pub returns : commit_pop q ≡ done ((Fifo.pop f).0, (Fifo.pop f).1, after)
    pub represents : Represents blank after (Fifo.pop f).2
    pub same_capacity : after.capacity ≡ q.capacity

  pub taken : SampleQueue A → SampleQueue A
  taken q = record q {
    tail = (q.tail + 1) % q.capacity;
    count = q.count - 1;
    pop_count = u32 (q.pop_count + 1);
  }

  commit_pop-some :
      (q : SampleQueue A)
      → IsValid q
      → 0 < q.count
      → commit_pop q ≡ done (success, some (get_or q.samples q.tail blank), taken q)
  unfolding commit_pop taken
  commit_pop-some q v h =
      ground (arith, load-eq-done q.samples q.tail blank (omega (arith, v.tail_in, v.storage)))

  taken-IsValid : (q : SampleQueue A) (n : ℕ) → IsValid q → q.count ≡ suc n → IsValid (taken q)
  unfolding taken
  taken-IsValid q n v e = record {
    storage = v.storage;
    tail_in = omega (arith, v.tail_in);
    count_in = omega (arith, v.count_in);
    head_at =
        v.head_at
        ∙ ap (λ k. (q.tail + k) % q.capacity) {y = suc (q.count - 1)} (omega arith)
        ∙ sym (index_step q.capacity q.tail (q.count - 1));
  }

  commit_pop_empty :
      (q : SampleQueue A) → q.shutdown ≡ true → q.count ≡ 0 → commit_pop q ≡ done (failure, none, q)
  unfolding commit_pop
  commit_pop_empty q e z = ground arith

  pub size : {q : SampleQueue A} {f : Fifo A} → Represents blank q f → length f.items ≡ q.count
  size {q} s = ap length (sym s.held) ∙ length-segment blank q.samples q.capacity q.tail q.count

  pop_by_items :
      (q : SampleQueue A) (f : Fifo A) (n : ℕ) (l : List A)
      → Represents blank q f
      → (0 < q.count) ⊎ (q.shutdown ≡ true)
      → q.count ≡ n
      → f.items ≡ l
      → Popped q f
  unfolding taken
  pop_by_items q f zero [] s ready e i = record {
    after = q;
    returns =
        commit_pop_empty q (ground arith) e ∙ ap (λ p. done (p.0, p.1, q)) (sym (Fifo.pop-nil f i));
    represents = subst (λ p. Represents blank q p.2) (sym (Fifo.pop-nil f i)) s;
    same_capacity = refl;
  }
  pop_by_items q f zero (x ∷ rest) s ready e i = absurd (omega (arith, size s, ap length i))
  pop_by_items q f (suc n) [] s ready e i = absurd (omega (arith, size s, ap length i))
  pop_by_items q f (suc n) (x ∷ rest) s ready e i = record {
    after = taken q;
    returns =
        commit_pop-some q s.valid (omega arith)
        ∙ ap (λ y. done (success, some y, taken q)) (ap (λ l. Option.get_or (head? l) x) both)
        ∙ ap (λ p. done (p.0, p.1, taken q)) (sym popped);
    represents =
        subst (λ p. Represents blank (taken q) p.2) (sym popped)
          record {
            valid = taken-IsValid q n s.valid e;
            held =
                ap (segment blank q.samples q.capacity ((q.tail + 1) % q.capacity))
                  {x = q.count - 1} {y = n} (omega arith)
                ∙ ap (drop 1) both;
            closed = s.closed;
            pushed = s.pushed;
            popped = omega (arith, s.popped);
            dropped = s.dropped;
          };
    same_capacity = refl;
  }
    where
      both :
          get_or q.samples q.tail blank
            ∷ segment blank q.samples q.capacity ((q.tail + 1) % q.capacity) n
          ≡ x ∷ rest
      both = sym (contents_of_ne_zero blank q n s.valid e) ∙ s.held ∙ i

      popped : Fifo.pop f ≡ (success, some x, record f { items = rest; popped = f.popped + 1 })
      popped = Fifo.pop-cons f x rest i

  -- A pop's critical section, on a queue that represents an abstract one and is not empty or is
  -- shut down, does what the abstract pop does, inside the storage and with the same capacity.
  pub commit_pop-Popped :
      (q : SampleQueue A) (f : Fifo A)
      → Represents blank q f
      → (0 < q.count) ⊎ (q.shutdown ≡ true)
      → Popped q f
  commit_pop-Popped q f s ready = pop_by_items q f q.count f.items s ready refl refl
