-- ===== src/SampleQueue/Refine.antt =====
-- The critical sections of `sample_queue_t` and the queue of SampleQueue/Fifo.
pub mod Pop
pub mod Runs
use mathlib.Core.List.{head?}
use mathlib.Core.Option
use native.Mathlib.Nat.{mod-add-mod}
use mathlib.Core.Path.{subst}
use i_mx6ull_water_qualit.Base.{
  ℕ, suc, ◌+◌, ◌-◌, ◌%◌, ◌^◌, ◌≤◌, ◌<◌, ◌≡◌, refl, sym, ap, ◌∙◌, arith, leb, if◌then◌else◌, true,
  false, List, [], ◌∷◌, ◌++◌, Option, none, some, Run, done, ◌>>=◌, length, drop, get_or, set,
  store-eq-done, load-eq-done, length-set, u32, Bool-cases, ◌⊎◌, zero, inl, inr,
}
use i_mx6ull_water_qualit.SampleQueue.{SampleQueue, Op, pushes, pops, shuts_down, success, failure}
use i_mx6ull_water_qualit.SampleQueue.Commit.{
  make_room, commit_push, commit_pop, shut_down, step, run,
}
use i_mx6ull_water_qualit.SampleQueue.Segment.{segment, segment-set, length-segment, index_step}
use i_mx6ull_water_qualit.SampleQueue.Fifo
use i_mx6ull_water_qualit.SampleQueue.Fifo.{Fifo}
use i_mx6ull_water_qualit.SampleQueue.Valid.{
  IsValid, head_in, contents, contents_of_ne_zero, HasRoom, make_room-HasRoom,
}

module _ {A : Type 0} (blank : A) where
  -- The queue is valid, holds the samples of `f`, and counts as `f` does, in 32 bits.
  pub record Represents (q : SampleQueue A) (f : Fifo A) : Type 0 where
    pub valid : IsValid q
    pub held : contents blank q ≡ f.items
    pub closed : q.shutdown ≡ f.closed
    pub pushed : q.push_count ≡ u32 f.pushed
    pub popped : q.pop_count ≡ u32 f.popped
    pub dropped : q.overflow_count ≡ u32 f.dropped

  -- the queue after the stores of a push
  abbrev put : SampleQueue A → A → SampleQueue A
  put r x = record r {
    samples = set r.samples r.head x;
    head = (r.head + 1) % r.capacity;
    count = r.count + 1;
    push_count = u32 (r.push_count + 1);
  }

  put-IsValid : (r : SampleQueue A) (x : A) → IsValid r → r.count < r.capacity → IsValid (put r x)
  put-IsValid r x v h = record {
    storage = length-set r.samples r.head x ∙ v.storage;
    tail_in = v.tail_in;
    count_in = omega arith;
    head_at =
        ap (λ k. (k + 1) % r.capacity) v.head_at
        ∙ mod-add-mod (r.tail + r.count) r.capacity 1
        ∙ ap (λ k. k % r.capacity) {x = r.tail + r.count + 1} (omega arith);
  }

  contents-put :
      (r : SampleQueue A) (x : A)
      → IsValid r
      → r.count < r.capacity
      → contents blank (put r x) ≡ contents blank r ++ x ∷ []
  contents-put r x v h =
      ap (segment blank (set r.samples r.head x) r.capacity r.tail) {x = r.count + 1}
        {y = suc r.count} (omega arith)
      ∙ segment-set blank r.samples r.capacity r.tail r.count r.head x v.tail_in h
          (omega (arith, v.storage)) v.head_at

  commit_push_shut :
      (q : SampleQueue A) (x : A) → q.shutdown ≡ true → commit_push q x ≡ done (failure, q)
  unfolding commit_push
  commit_push_shut q x e = simp e

  commit_push_open :
      (q : SampleQueue A) (x : A)
      → IsValid q
      → q.shutdown ≡ false
      → commit_push q x ≡ done (success, put (make_room q) x)
  unfolding commit_push
  commit_push_open q x v e = ground (arith, store-eq-done r.samples r.head x inside)
    where
      r : SampleQueue A
      r = make_room q

      room : HasRoom blank q (make_room q)
      room = make_room-HasRoom blank q v

      inside : (make_room q).head < length (make_room q).samples
      inside = omega (arith, head_in room.valid, room.valid.storage)

  -- What the push does to the abstract queue, and to the counters.
  pub record Pushed (q : SampleQueue A) (x : A) (f : Fifo A) : Type 0 where
    pub after : SampleQueue A
    pub returns : commit_push q x ≡ done ((Fifo.push q.capacity x f).0, after)
    pub represents : Represents after (Fifo.push q.capacity x f).1
    pub same_capacity : after.capacity ≡ q.capacity

  pub commit_push-Pushed : (q : SampleQueue A) (x : A) (f : Fifo A) → Represents q f → Pushed q x f
  unfolding Fifo.push
  commit_push-Pushed q x f s = elim (Bool-cases q.shutdown) [
    | inl shut ↦
        let refuses = Fifo.push_closed q.capacity x f (sym s.closed ∙ shut) in
        record {
          after = q;
          returns = commit_push_shut q x shut ∙ ap (λ p. done (p.0, q)) (sym refuses);
          represents = subst (λ p. Represents q p.1) (sym refuses) s;
          same_capacity = refl;
        }
    | inr open_ ↦ record {
      after = put (make_room q) x;
      returns = commit_push_open q x s.valid open_ ∙ ground (arith, s.closed);
      represents = record {
        valid = put-IsValid (make_room q) x room.valid room.free;
        held =
            contents-put (make_room q) x room.valid room.free
            ∙ ground (arith, s.closed, s.held, room.held, size);
        closed = room.same_shutdown ∙ ground (arith, s.closed);
        pushed = ground (arith, s.closed, s.pushed, room.same_pushes);
        popped = room.same_pops ∙ ground (arith, s.closed, s.popped);
        dropped = ground (arith, s.closed, s.dropped, room.overflows, size);
      };
      same_capacity = room.same_capacity;
    }
  ]
    where
      room : HasRoom blank q (make_room q)
      room = make_room-HasRoom blank q s.valid

      size : length f.items ≡ q.count
      size = ap length (sym s.held) ∙ length-segment blank q.samples q.capacity q.tail q.count
