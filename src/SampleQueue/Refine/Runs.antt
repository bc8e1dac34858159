-- ===== src/SampleQueue/Refine/Runs.antt =====
-- What the threads do to a queue, one critical section after the other, and `Fifo.run`.
use mathlib.Core.Path.{subst}
use i_mx6ull_water_qualit.Base.{
  ℕ, suc, ◌≡◌, refl, sym, ap, ◌∙◌, arith, List, [], ◌∷◌, Run, done, ◌>>=◌, zero, inl,
}
use i_mx6ull_water_qualit.SampleQueue.{SampleQueue, Op, pushes, pops, shuts_down}
use i_mx6ull_water_qualit.SampleQueue.Commit.{shut_down, step, run}
use i_mx6ull_water_qualit.SampleQueue.Fifo
use i_mx6ull_water_qualit.SampleQueue.Fifo.{Fifo}
use i_mx6ull_water_qualit.SampleQueue.Refine.{Represents}
use i_mx6ull_water_qualit.SampleQueue.Refine.{commit_push-Pushed}
use i_mx6ull_water_qualit.SampleQueue.Refine.Pop.{size, commit_pop-Popped}
use i_mx6ull_water_qualit.Base.{nil_of_length}

module _ {A : Type 0} (blank : A) where
  -- Any operation of another thread is the operation of the abstract queue.
  pub record Stepped (q : SampleQueue A) (result : Run (SampleQueue A)) (f : Fifo A) : Type 0 where
    pub after : SampleQueue A
    pub returns : result ≡ done after
    pub represents : Represents blank after f
    pub same_capacity : after.capacity ≡ q.capacity

  step_pops :
      (q : SampleQueue A) (f : Fifo A) (n : ℕ)
      → Represents blank q f
      → q.count ≡ n
      → Stepped q (step pops q) (Fifo.step q.capacity pops f)
  unfolding step Fifo.step
  step_pops q f zero s e = record {
    after = q;
    returns = ground arith;
    represents =
        subst (λ p. Represents blank q p.2)
          (sym (Fifo.pop-nil f (nil_of_length f.items (size blank s ∙ e)))) s;
    same_capacity = refl;
  }
  step_pops q f (suc n) s e =
      let p = commit_pop-Popped blank q f s (inl (omega arith)) in
      record {
        after = p.after;
        returns = ground (arith, p.returns);
        represents = p.represents;
        same_capacity = p.same_capacity;
      }

  pub step-Stepped :
      (op : Op A) (q : SampleQueue A) (f : Fifo A)
      → Represents blank q f
      → Stepped q (step op q) (Fifo.step q.capacity op f)
  unfolding step Fifo.step shut_down
  step-Stepped (pushes x) q f s =
      let p = commit_push-Pushed blank q x f s in
      record {
        after = p.after;
        returns = ap (λ m. m >>= (λ r. done r.1)) p.returns;
        represents = p.represents;
        same_capacity = p.same_capacity;
      }
  step-Stepped pops q f s = step_pops q f q.count s refl
  step-Stepped shuts_down q f s = record {
    after = shut_down q;
    returns = refl;
    represents = record {
      valid = record {
        storage = s.valid.storage;
        tail_in = s.valid.tail_in;
        count_in = s.valid.count_in;
        head_at = s.valid.head_at;
      };
      held = s.held;
      closed = refl;
      pushed = s.pushed;
      popped = s.popped;
      dropped = s.dropped;
    };
    same_capacity = refl;
  }

  pub run-Stepped :
      (ops : List (Op A)) (q : SampleQueue A) (f : Fifo A)
      → Represents blank q f
      → Stepped q (run ops q) (Fifo.run q.capacity ops f)
  unfolding run Fifo.run
  run-Stepped [] q f s = record { after = q; returns = refl; represents = s; same_capacity = refl }
  run-Stepped (op ∷ ops) q f s =
      let a = step-Stepped op q f s in
      let b = run-Stepped ops a.after (Fifo.step q.capacity op f) a.represents in
      record {
        after = b.after;
        returns = ap (λ m. m >>= run ops) a.returns ∙ b.returns;
        represents =
            subst (λ c. Represents blank b.after (Fifo.run c ops (Fifo.step q.capacity op f)))
              a.same_capacity b.represents;
        same_capacity = b.same_capacity ∙ a.same_capacity;
      }
