-- ===== src/Events/Masks.antt =====
-- What the mask operations of base/Events.cpp do, flag by flag.
use fasco.Base.{
  ℕ, ◌-◌, ◌<◌, min, max, true, false, bit_and, bit_or, ◌≡◌, refl, ◌≢◌, ◌↔◌, arith, nat_beq_iff, ap,
}
use native.Mathlib.Decide.{ℕ_discrete}
use fasco.Base.Bits.{
  bit, bit_not, IsU32, bit-zero, bit-or, bit-and, bit-not, bit-le-one, bit_ext, some_bit,
  bit_or-IsU32, bit_and-IsU32,
}
use fasco.Events.{
  Events, State, IsWellFormed, add_event, delete_event, add_event_mutable, delete_event_mutable,
  contains_events, contains_at_least_one_events,
}

-- The flag with number `k` is in the mask.
abbrev pub Has : ℕ → ℕ → Type 0
Has k m = bit k m ≡ 1

-- Bits of `a & ~b`.
pub bit-and_not :
    (k a b : ℕ) → k < 32 → IsU32 b → bit k (bit_and a (bit_not b)) ≡ min (bit k a) (1 - bit k b)
bit-and_not k a b h w = omega (arith, bit-and k a (bit_not b), bit-not k b h w)

-- For masks that fit a uint32_t, addEvent and deleteEvent change eorigin_ flag by flag as union and
-- difference, addEventMutable and deleteEventMutable do the same to mutable_, each leaves the other
-- mask alone, and each puts the object into state MOD.
pub mask_updates :
    (k m : ℕ) (e : Events)
    → k < 32
    → IsU32 m
    → (bit k (add_event m e).eorigin ≡ max (bit k e.eorigin) (bit k m))
      × (bit k (delete_event m e).eorigin ≡ min (bit k e.eorigin) (1 - bit k m))
      × (bit k (add_event_mutable m e).mutable ≡ max (bit k e.mutable) (bit k m))
      × (bit k (delete_event_mutable m e).mutable ≡ min (bit k e.mutable) (1 - bit k m))
      × ((add_event m e).mutable ≡ e.mutable)
      × ((delete_event m e).mutable ≡ e.mutable)
      × ((add_event_mutable m e).eorigin ≡ e.eorigin)
      × ((delete_event_mutable m e).eorigin ≡ e.eorigin)
      × ((add_event m e).state ≡ State.modified)
      × ((delete_event m e).state ≡ State.modified)
      × ((add_event_mutable m e).state ≡ State.modified)
      × ((delete_event_mutable m e).state ≡ State.modified)
unfolding add_event delete_event add_event_mutable delete_event_mutable
mask_updates k m e h w = (
  bit-or k e.eorigin m,
  bit-and_not k e.eorigin m h w,
  bit-or k e.mutable m,
  bit-and_not k e.mutable m h w,
  refl,
  refl,
  refl,
  refl,
  refl,
  refl,
  refl,
  refl,
)

-- Two masks that share no flag have 0 for their `&`.
and_zero : (a b : ℕ) → IsU32 a → ((k : ℕ) → k < 32 → min (bit k a) (bit k b) ≡ 0) → bit_and a b ≡ 0
and_zero a b w h =
    bit_ext (bit_and a b) 0 (bit_and-IsU32 a b w) (omega arith)
      (λ k lt. omega (arith, bit-and k a b, h k lt, bit-zero k))

covered : (k m events : ℕ) → (Has k events → Has k m) → bit k (bit_and m events) ≡ bit k events
covered k m events h = elim (ℕ_discrete (bit k events) 1) [
  | yes has ↦ omega (arith, bit-and k m events, h has, has)
  | no not_has ↦ omega (arith, bit-and k m events, bit-le-one k events)
]

-- containsEvents holds exactly when every flag of `events` is in the mask.
pub contains_events_iff :
    (m events : ℕ)
    → IsU32 m
    → IsU32 events
    → (contains_events m events ≡ true) ↔ ((k : ℕ) → k < 32 → Has k events → Has k m)
unfolding contains_events
contains_events_iff m events wm we = (
  λ h k lt has.
      omega (arith, ap (bit k) ((nat_beq_iff _ _).0 h), bit-and k m events, bit-le-one k m, has),
  λ all.
      (nat_beq_iff _ _).1
        (bit_ext _ _ (bit_and-IsU32 m events wm) we (λ k lt. covered k m events (all k lt))),
)

-- Two masks share a flag.
abbrev pub Meets : ℕ → ℕ → Type 0
Meets m events = (k : ℕ) × (k < 32) × Has k m × Has k events

pub and-ne-zero : (k a b : ℕ) → Has k a → Has k b → bit_and a b ≢ 0
and-ne-zero k a b ha hb e = omega (arith, bit-and k a b, ha, hb, ap (bit k) e, bit-zero k)

pub common_bit : (m events : ℕ) → IsU32 m → bit_and m events ≢ 0 → Meets m events
common_bit m events w h =
    let (k, lt, b) = some_bit (bit_and m events) (bit_and-IsU32 m events w) h in
    (
      k,
      lt,
      omega (arith, b, bit-and k m events, bit-le-one k m, bit-le-one k events),
      omega (arith, b, bit-and k m events, bit-le-one k m, bit-le-one k events),
    )

-- containsAtLeastOneEvents holds exactly when the two masks share a flag.
pub contains_at_least_one_iff :
    (m events : ℕ) → IsU32 m → (contains_at_least_one_events m events ≡ true) ↔ Meets m events
unfolding contains_at_least_one_events
contains_at_least_one_iff m events w = (
  λ h. common_bit m events w (λ z. ground (arith, nat_beq_iff (bit_and m events) 0)),
  λ (k, lt, a, b). ground (arith, nat_beq_iff (bit_and m events) 0, and-ne-zero k m events a b),
)

-- For masks that fit a uint32_t: containsEvents holds exactly when every flag of the second mask is
-- in the first, and containsAtLeastOneEvents exactly when they share one.
pub contains_masks :
    (m events : ℕ)
    → IsU32 m
    → IsU32 events
    → ((contains_events m events ≡ true) ↔ ((k : ℕ) → k < 32 → Has k events → Has k m))
      × ((contains_at_least_one_events m events ≡ true) ↔ Meets m events)
contains_masks m events wm we =
    (contains_events_iff m events wm we, contains_at_least_one_iff m events wm)

-- After addEvent every added flag is contained; after deleteEvent not one of the deleted is.
pub add_delete_contains :
    (m : ℕ) (e : Events)
    → IsWellFormed e
    → IsU32 m
    → (contains_events (add_event m e).eorigin m ≡ true)
      × (contains_at_least_one_events (delete_event m e).eorigin m ≡ false)
unfolding add_event delete_event contains_at_least_one_events
add_delete_contains m e v w = (
  (contains_events_iff _ m (bit_or-IsU32 e.eorigin m v.origin_fits w) w).1
      (λ k lt has. omega (arith, bit-or k e.eorigin m, bit-le-one k e.eorigin, has)),
  ground (
    arith,
    nat_beq_iff _ 0,
    and_zero (bit_and e.eorigin (bit_not m)) m (bit_and-IsU32 e.eorigin (bit_not m) v.origin_fits)
        (λ k lt. omega (arith, bit-and_not k e.eorigin m lt w, bit-le-one k m)),
  ),
)

-- To delete what was added gives the mask back, where none of the added flags was there before.
pub delete-add :
    (m : ℕ) (e : Events)
    → IsWellFormed e
    → IsU32 m
    → contains_at_least_one_events e.eorigin m ≡ false
    → (delete_event m (add_event m e)).eorigin ≡ e.eorigin
unfolding delete_event add_event contains_at_least_one_events
delete-add m e v w none_there =
    bit_ext _ _ (bit_and-IsU32 _ (bit_not m) (bit_or-IsU32 e.eorigin m v.origin_fits w))
      v.origin_fits
      λ k lt. omega (
        arith,
        bit-and_not k (bit_or e.eorigin m) m lt w,
        bit-or k e.eorigin m,
        bit-le-one k m,
        bit-le-one k e.eorigin,
        ap (bit k) disjoint,
        bit-zero k,
        bit-and k e.eorigin m,
      )
  where
    disjoint : bit_and e.eorigin m ≡ 0
    disjoint = ground (arith, nat_beq_iff (bit_and e.eorigin m) 0)
