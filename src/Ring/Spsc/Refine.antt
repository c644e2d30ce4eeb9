-- ===== src/Ring/Spsc/Refine.antt =====
-- The ring of slots is the bounded queue of its items.
use reticulum_tnc.Base.{
  ℕ, suc, ◌+◌, ◌%◌, ◌^◌, ◌≤◌, ◌<◌, u64, List, [], ◌∷◌, ◌++◌, length, get_or, set, length-set,
  length-replicate, ltb, ◌==◌, if◌then◌else◌, ◌≡◌, refl, ap, ◌≢◌, ◌⊎◌, inl, inr, true, false, none,
  some, arith, ℕ_discrete,
}
use reticulum_tnc.Ring.Index.{
  distance, next-lt, distance-lt, distance-zero_iff, full_iff, distance-next_producer,
  distance-next_consumer, producer_of_distance,
}
use reticulum_tnc.Ring.Window.{window, length-window, window-push}
use reticulum_tnc.Ring.Fifo.{enqueue, dequeue}
use reticulum_tnc.Ring.Spsc.{Spsc, spsc_init, spsc_push, spsc_pop, spsc_depth}

module _ {ℓ} {A : Type ℓ} (free : A) where
  pub record IsSound (max_capacity : ℕ) (q : Spsc A) : Type 0 where
    pub sized : q.slot_count ≡ q.capacity + 1
    pub some_room : 1 ≤ q.capacity
    pub bounded : q.capacity ≤ max_capacity
    pub storage : length q.slots ≡ max_capacity + 1
    pub producer_in : q.producer < q.slot_count
    pub consumer_in : q.consumer < q.slot_count
    pub deepest : q.maximum_depth ≤ q.capacity
    pub covers : distance q.producer q.consumer q.slot_count ≤ q.maximum_depth

  -- The items in the ring, oldest first.
  abbrev pub items : Spsc A → List A
  items q =
      window free q.slot_count q.slots q.consumer (distance q.producer q.consumer q.slot_count)

  -- What an accepted capacity gives is sound and empty.
  pub spsc_init-IsSound :
      (max_capacity capacity : ℕ) (q : Spsc A)
      → spsc_init free max_capacity capacity ≡ some q
      → IsSound max_capacity q × (q.capacity ≡ capacity) × (items q ≡ [])
  unfolding spsc_init
  spsc_init-IsSound max_capacity capacity q h =
      ground (arith, length-replicate (max_capacity + 1) free)

  abbrev filled : Spsc A → A → Spsc A
  filled q x =
      let next = (q.producer + 1) % q.slot_count in
      let depth = distance next q.consumer q.slot_count in
      record q {
        slots = set q.slots q.producer x;
        producer = next;
        maximum_depth = if ltb q.maximum_depth depth then depth else q.maximum_depth;
      }

  module _ (max_capacity : ℕ) (q : Spsc A) (v : IsSound max_capacity q)
      (small : max_capacity < 2 ^ 32) where
    next-eq : (i : ℕ) → i < q.slot_count → u64 (i + 1) % q.slot_count ≡ (i + 1) % q.slot_count
    next-eq i h = let e : u64 (i + 1) ≡ i + 1 = omega (arith, v.sized, v.bounded) in rw e

    pub length-items : length (items q) ≡ spsc_depth q
    unfolding spsc_depth
    length-items =
        length-window free q.slot_count q.slots q.consumer
          (distance q.producer q.consumer q.slot_count)

    pub spsc_push-IsSound : (x : A) → IsSound max_capacity (spsc_push q x).0
    unfolding spsc_push
    spsc_push-IsSound x = ground (
      arith,
      next-eq q.producer v.producer_in,
      next-lt q.producer q.slot_count v.producer_in,
      distance-lt ((q.producer + 1) % q.slot_count) q.consumer q.slot_count,
      length-set q.slots q.producer x,
    )

    pub spsc_pop-IsSound : IsSound max_capacity (spsc_pop free q).0
    unfolding spsc_pop
    spsc_pop-IsSound = ground (
      arith,
      next-eq q.consumer v.consumer_in,
      next-lt q.consumer q.slot_count v.consumer_in,
      distance-next_consumer q.producer q.consumer q.slot_count v.producer_in v.consumer_in,
    )

    full_run :
        (x : A)
        → (q.producer + 1) % q.slot_count ≡ q.consumer
        → spsc_push q x ≡ (record q { dropped = u64 (q.dropped + 1) }, false)
    unfolding spsc_push
    full_run x full =
        let meets : (u64 (q.producer + 1) % q.slot_count == q.consumer) ≡ true =
          ground (arith, next-eq q.producer v.producer_in) in
        rw (meets, spsc_push) refl

    free_run :
        (x : A) → (q.producer + 1) % q.slot_count ≢ q.consumer → spsc_push q x ≡ (filled q x, true)
    unfolding spsc_push
    free_run x ne = let e = next-eq q.producer v.producer_in in rw (e, spsc_push) (ground arith)

    items-filled :
        (x : A)
        → (q.producer + 1) % q.slot_count ≢ q.consumer
        → items (filled q x) ≡ items q ++ (x ∷ [])
    items-filled x ne =
        let k = distance q.producer q.consumer q.slot_count in
        let e : distance ((q.producer + 1) % q.slot_count) q.consumer q.slot_count ≡ suc k = omega (
          arith,
          distance-next_producer q.producer q.consumer q.slot_count v.producer_in v.consumer_in ne,
        ) in
        rw e (
          window-push free q.slot_count q.slots q.producer x q.consumer k v.consumer_in
            (distance-lt q.producer q.consumer q.slot_count v.producer_in v.consumer_in)
            (omega (arith, v.sized, v.bounded, v.storage))
            (producer_of_distance q.producer q.consumer q.slot_count v.producer_in v.consumer_in)
            v.producer_in)

    -- Whether there is room is whether less than `capacity` items are there.
    room_cases :
        (((q.producer + 1) % q.slot_count ≡ q.consumer) × (length (items q) ≡ q.capacity))
        ⊎ (((q.producer + 1) % q.slot_count ≢ q.consumer) × (length (items q) < q.capacity))
    unfolding spsc_depth
    room_cases = ground (
      arith,
      length-items,
      full_iff q.producer q.consumer q.slot_count v.producer_in v.consumer_in,
      distance-lt q.producer q.consumer q.slot_count v.producer_in v.consumer_in,
    )

    -- A push puts the item behind the others, if there are less than `capacity`.
    pub spsc_push_refines :
        (x : A)
        → let (q', taken) = spsc_push q x in
          ((items q', taken) ≡ enqueue q.capacity (items q) x)
          × (q'.dropped ≡ (if taken then q.dropped else u64 (q.dropped + 1)))
    unfolding enqueue
    spsc_push_refines x = elim room_cases [
      | inl (full, many) ↦ rw (full_run x full) (ground arith, refl)
      | inr (ne, few) ↦ let e = items-filled x ne in rw (free_run x ne) (ground arith, refl)
    ]

    items-nonempty :
        q.consumer ≢ q.producer
        → items q
          ≡ get_or q.slots q.consumer free
            ∷ items (record q { consumer = (q.consumer + 1) % q.slot_count })
    items-nonempty ne =
        let k = distance q.producer ((q.consumer + 1) % q.slot_count) q.slot_count in
        let e : distance q.producer q.consumer q.slot_count ≡ suc k = omega (
          arith,
          distance-next_consumer q.producer q.consumer q.slot_count v.producer_in v.consumer_in ne,
        ) in
        ap (window free q.slot_count q.slots q.consumer) e

    items-empty : q.consumer ≡ q.producer → items q ≡ []
    items-empty e =
        ap (window free q.slot_count q.slots q.consumer)
          ((distance-zero_iff q.producer q.consumer q.slot_count v.producer_in v.consumer_in).1 e)

    stored_run :
        q.consumer ≢ q.producer
        → spsc_pop free q ≡ (
          record q { consumer = (q.consumer + 1) % q.slot_count },
          some (get_or q.slots q.consumer free),
        )
    unfolding spsc_pop
    stored_run ne =
        let differ : (q.consumer == q.producer) ≡ false = ground arith in
        let e = next-eq q.consumer v.consumer_in in rw (differ, e, spsc_pop) refl

    nothing_run : q.consumer ≡ q.producer → spsc_pop free q ≡ (q, none)
    unfolding spsc_pop
    nothing_run e =
        let meet : (q.consumer == q.producer) ≡ true = ground arith in rw (meet, spsc_pop) refl

    -- A pop takes the oldest item.
    pub spsc_pop_refines : let (q', out) = spsc_pop free q in (items q', out) ≡ dequeue (items q)
    unfolding dequeue
    spsc_pop_refines = elim (ℕ_discrete q.consumer q.producer) [
      | yes e ↦ rw (nothing_run e, items-empty e) refl
      | no ne ↦ rw (stored_run ne, items-nonempty ne) refl
    ]
