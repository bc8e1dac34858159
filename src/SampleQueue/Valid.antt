-- ===== src/SampleQueue/Valid.antt =====
-- The representation invariant of `sample_queue_t`, and the samples that a queue holds.
use i_mx6ull_water_qualit.Base.{
  ℕ, suc, ◌+◌, ◌-◌, ◌%◌, ◌≤◌, ◌<◌, ◌≡◌, refl, ap, sym, ◌∙◌, arith, leb, if◌then◌else◌, List, ◌∷◌,
  length, drop, get_or, Bool-cases, inl, inr, leb→le, true, u32,
}
use i_mx6ull_water_qualit.SampleQueue.{SampleQueue}
use i_mx6ull_water_qualit.SampleQueue.Commit.{make_room}
use i_mx6ull_water_qualit.SampleQueue.Segment.{segment, segment-cons, index_step}

module _ {A : Type 0} where
  pub record IsValid (q : SampleQueue A) : Type 0 where
    pub storage : length q.samples ≡ q.capacity
    pub tail_in : q.tail < q.capacity
    pub count_in : q.count ≤ q.capacity
    pub head_at : q.head ≡ (q.tail + q.count) % q.capacity

  pub head_in : {q : SampleQueue A} → IsValid q → q.head < q.capacity
  head_in v = omega arith

module _ {A : Type 0} (blank : A) where
  -- the samples of a queue, oldest first
  abbrev pub contents : SampleQueue A → List A
  contents q = segment blank q.samples q.capacity q.tail q.count

  pub contents_of_ne_zero :
      (q : SampleQueue A) (n : ℕ)
      → IsValid q
      → q.count ≡ suc n
      → contents q
        ≡ get_or q.samples q.tail blank
          ∷ segment blank q.samples q.capacity ((q.tail + 1) % q.capacity) n
  contents_of_ne_zero q n v e =
      ap (segment blank q.samples q.capacity q.tail) e
      ∙ segment-cons blank q.samples q.capacity q.tail n v.tail_in

  -- What `make_room` leaves: a queue with a free place, and all samples but perhaps the oldest.
  pub record HasRoom (q r : SampleQueue A) : Type 0 where
    pub valid : IsValid r
    pub free : r.count < r.capacity
    pub same_capacity : r.capacity ≡ q.capacity
    pub held : contents r ≡ (if leb q.capacity q.count then drop 1 (contents q) else contents q)
    pub same_shutdown : r.shutdown ≡ q.shutdown
    pub same_pushes : r.push_count ≡ q.push_count
    pub same_pops : r.pop_count ≡ q.pop_count
    pub overflows :
        r.overflow_count
        ≡ (if leb q.capacity q.count then u32 (q.overflow_count + 1) else q.overflow_count)

  make_room_full :
      (q : SampleQueue A)
      → IsValid q
      → q.capacity ≤ q.count
      → leb q.capacity q.count ≡ true
      → HasRoom q (make_room q)
  unfolding make_room
  make_room_full q v h full = rw full record {
    valid = record {
      storage = v.storage;
      tail_in = omega (arith, v.tail_in);
      count_in = omega (arith, v.count_in);
      head_at =
          v.head_at
          ∙ ap (λ k. (q.tail + k) % q.capacity) last
          ∙ sym (index_step q.capacity q.tail (q.count - 1));
    };
    free = omega (arith, v.tail_in);
    same_capacity = refl;
    held = rw full (sym (ap (drop 1) (contents_of_ne_zero q (q.count - 1) v last)));
    same_shutdown = refl;
    same_pushes = refl;
    same_pops = refl;
    overflows = rw full refl;
  }
    where
      last : q.count ≡ suc (q.count - 1)
      last = omega (arith, v.tail_in)

  pub make_room-HasRoom : (q : SampleQueue A) → IsValid q → HasRoom q (make_room q)
  unfolding make_room
  make_room-HasRoom q v = elim (Bool-cases (leb q.capacity q.count)) [
    | inl full ↦ make_room_full q v (leb→le q.capacity q.count full) full
    | inr room ↦ rw room record {
      valid = v;
      free = ground arith;
      same_capacity = refl;
      held = rw room refl;
      same_shutdown = refl;
      same_pushes = refl;
      same_pops = refl;
      overflows = rw room refl;
    }
  ]
