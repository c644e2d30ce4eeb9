-- ===== src/Ring/Spsc.antt =====
-- A bounded ring of slots with one producer and one consumer, as the two queues of audio have it:
-- their state, and the calls that both write in the same way.
pub mod Refine
use reticulum_tnc.Base.{
  ℕ, zero, suc, ◌+◌, ◌-◌, ◌*◌, ◌/◌, ◌%◌, ◌^◌, ◌≤◌, ◌<◌, min, max, bit_xor, u8, u16, u32, u64, ◌<<<◌,
  ◌>>>◌, test_bit, AreBytes, List, [], ◌∷◌, ◌++◌, map, append-nil, append_assoc, length, get_or,
  set, take, drop, replicate, length-append, length-set, get_or-set_self, get_or-set_ne,
  length-take, length-drop, length-replicate, get_or-replicate, take-append-drop, take-append,
  drop-append, take_all, get_or-append_right, take_add, drop_add, ltb, leb, ◌==◌, if◌then◌else◌,
  ltb→lt, lt→ltb, leb→le, ==_iff, Bool-cases, Option-cases, Result, ok, err, ◌>>=◌, ◌>>◌, fail_if,
  ◌≡◌, refl, sym, ap, ap₂, subst, ◌∙◌, ◌≢◌, ◌↔◌, ◌⊎◌, inl, inr, Bool, true, false, not, ◌&&◌, ◌||◌,
  Option, none, some, arith, dec_lt, dec_le, ℕ_discrete,
}
use reticulum_tnc.Ring.Index.{
  distance, next-lt, distance-lt, distance-zero_iff, full_iff, distance-next_producer,
  distance-next_consumer, producer_of_distance,
}

module _ {ℓ} (A : Type ℓ) where
  pub record Spsc : Type ℓ where
    pub slots : List A
    pub capacity : ℕ
    pub slot_count : ℕ
    pub producer : ℕ
    pub consumer : ℕ
    pub maximum_depth : ℕ
    pub dropped : ℕ

module _ {ℓ} {A : Type ℓ} where
  -- The push of an item that is well-formed.
  unfoldable pub spsc_push : Spsc A → A → Spsc A × Bool
  spsc_push q x =
      let next = u64 (q.producer + 1) % q.slot_count in
      let depth = distance next q.consumer q.slot_count in
      if next == q.consumer then (record q { dropped = u64 (q.dropped + 1) }, false) else (
        record q {
          slots = set q.slots q.producer x;
          producer = next;
          maximum_depth = if ltb q.maximum_depth depth then depth else q.maximum_depth;
        },
        true,
      )

  unfoldable pub spsc_depth : Spsc A → ℕ
  spsc_depth q = distance q.producer q.consumer q.slot_count

module _ {ℓ} {A : Type ℓ} (free : A) where
  -- `max_capacity` and one more slots are there; `capacity` and one more are used.
  unfoldable pub spsc_init : ℕ → ℕ → Option (Spsc A)
  spsc_init max_capacity capacity =
      if capacity == 0 || ltb max_capacity capacity
      then none
      else some (record {
        slots = replicate (max_capacity + 1) free;
        capacity = capacity;
        slot_count = capacity + 1;
        producer = 0;
        consumer = 0;
        maximum_depth = 0;
        dropped = 0;
      })

  unfoldable pub spsc_pop : Spsc A → Spsc A × Option A
  spsc_pop q = if q.consumer == q.producer then (q, none) else (
    record q { consumer = u64 (q.consumer + 1) % q.slot_count },
    some (get_or q.slots q.consumer free),
  )
