-- ===== src/EventLoop/HandleAble.antt =====
-- eventHandleAble of base/EventLoop.cpp, flag by flag.
use fasco.Base.{
  ℕ, ◌<◌, ◌≡◌, refl, ◌≢◌, ◌↔◌, ◌⊎◌, ◌∙◌, inl, inr, min, Bool, true, false, not, if◌then◌else◌,
  nat_beq, nat_beq_iff, arith, Bool-cases, bit_and, ◌&&◌, ◌||◌, max, ap, ◌≤◌,
}
use fasco.Base.Bits.{
  bit, bit_not, bit-zero, bit-and, bit-or, bit-le-one, bit_ext, IsU32, bit_and-IsU32,
}
use fasco.Events.{
  Events, State, state_beq, is_read, is_write, origin_read, origin_write, delete_event_mutable,
  k_read_event, k_write_event, contains_at_least_one_events, read_flags, pollrdhup, pollout,
}
use fasco.Events.Masks.{bit-and_not}
use fasco.EventLoop.{event_handle_able, drop_read, drop_write}

pub meets_bit :
    (k m events : ℕ)
    → contains_at_least_one_events m events ≡ false
    → min (bit k m) (bit k events) ≡ 0
unfolding contains_at_least_one_events
meets_bit k m events h = omega (arith, bit-and k m events, ap (bit k) empty, bit-zero k)
  where
    empty : bit_and m events ≡ 0
    empty = ground (arith, nat_beq_iff (bit_and m events) 0)

-- Flag `k` is one of `gone`, and it was not asked for.
abbrev pub unasked : ℕ → ℕ → Bool → Bool
unasked k gone asked = nat_beq (bit k gone) 1 && not asked

-- The flags that are left of `mutable_`, where those of `gone` are deleted if the mask has one of
-- `seen`, and `seen` includes `gone`.
dropped_bit :
    (k m gone seen : ℕ) (asked : Bool)
    → k < 32
    → IsU32 gone
    → bit k gone ≤ bit k seen
    → bit k
        (if contains_at_least_one_events m seen && not asked then bit_and m (bit_not gone) else m)
      ≡ (if unasked k gone asked then 0 else bit k m)
dropped_bit k m gone seen asked lt w sub = elim (Bool-cases (contains_at_least_one_events m seen)) [
  | inl hit ↦ rw hit (
      ground (
        arith,
        bit-and_not k m gone lt w,
        bit-le-one k m,
        bit-le-one k gone,
        nat_beq_iff (bit k gone) 1,
      ))
  | inr miss ↦
      rw miss (ground (arith, meets_bit k m seen miss, bit-le-one k m, nat_beq_iff (bit k gone) 1))
]

mutable-if :
    (b : Bool) (x y : Events) → (if b then x else y).mutable ≡ (if b then x.mutable else y.mutable)
mutable-if true x y = refl
mutable-if false x y = refl

drop_read-bit :
    (k : ℕ) (e : Events)
    → k < 32
    → bit k (drop_read e).mutable
      ≡ (if unasked k k_read_event (origin_read e) then 0 else bit k e.mutable)
unfolding drop_read is_read delete_event_mutable
drop_read-bit k e lt = rw (mutable-if (is_read e && not (origin_read e))) (
    dropped_bit k e.mutable k_read_event read_flags (origin_read e) lt (omega arith)
      (omega (arith, bit-or k k_read_event pollrdhup)))

drop_write-bit :
    (k : ℕ) (e : Events)
    → k < 32
    → bit k (drop_write e).mutable
      ≡ (if unasked k k_write_event (origin_write e) then 0 else bit k e.mutable)
unfolding drop_write is_write delete_event_mutable
drop_write-bit k e lt =
    rw (mutable-if (is_write e && not (origin_write e))) (
      dropped_bit k e.mutable k_write_event pollout (origin_write e) lt (omega arith) (omega arith))

-- What stays of an object when flags are dropped: all but `mutable_`, in state MOD.
abbrev pub SameButMutable : Events → Events → Type 0
SameButMutable e d =
    (d.fd ≡ e.fd)
    × (d.eorigin ≡ e.eorigin)
    × (d.tid ≡ e.tid)
    × (d.type ≡ e.type)
    × (d.state ≡ e.state)

pub same_but_mutable : (e d : Events) → SameButMutable e d → d ≡ record e { mutable = d.mutable }
same_but_mutable e d (fd, eorigin, tid, type, state) = cc (fd, eorigin, tid, type, state)

dropped_rest : (e : Events) → e.state ≡ State.modified → SameButMutable e (drop_write (drop_read e))
unfolding drop_write drop_read delete_event_mutable
dropped_rest e m = ground arith

drop_read-eorigin : (e : Events) → (drop_read e).eorigin ≡ e.eorigin
unfolding drop_read delete_event_mutable
drop_read-eorigin e = ground arith

able_modified :
    (e : Events)
    → e.state ≡ State.modified
    → event_handle_able e
      ≡ (drop_write (drop_read e), not (nat_beq (drop_write (drop_read e)).mutable 0))
unfolding event_handle_able
able_modified e m = ground arith

-- In state MOD, of the reported mask POLLIN and POLLPRI are taken off if the object asks for none of
-- POLLIN, POLLPRI and POLLRDHUP, and POLLOUT is if it does not ask for POLLOUT. Nothing else of the
-- object changes, and the event is worth handling exactly when a flag is left.
pub event_handle_able_modified :
    (e : Events)
    → e.state ≡ State.modified
    → ((k : ℕ)
        → k < 32
        → bit k (event_handle_able e).0.mutable ≡ (
            if unasked k k_read_event (origin_read e) || unasked k k_write_event (origin_write e)
            then 0
            else bit k e.mutable))
      × SameButMutable e (event_handle_able e).0
      × (((event_handle_able e).1 ≡ true) ↔ ((event_handle_able e).0.mutable ≢ 0))
unfolding origin_write
event_handle_able_modified e m = rw (able_modified e m) (
  λ k lt.
      ground (arith, drop_write-bit k (drop_read e) lt, drop_read-bit k e lt, drop_read-eorigin e),
  dropped_rest e m,
  ground (arith, nat_beq_iff (drop_write (drop_read e)).mutable 0),
)

-- In every other state the object is left alone, and the event is worth handling unless the object
-- is to be deleted.
pub event_handle_able_other :
    (e : Events)
    → e.state ≢ State.modified
    → event_handle_able e ≡ (e, not (state_beq e.state State.del))
unfolding event_handle_able
event_handle_able_other e m = ground arith

pub event_handle_able-fd : (e : Events) → (event_handle_able e).0.fd ≡ e.fd
unfolding event_handle_able drop_read drop_write delete_event_mutable
event_handle_able-fd e = ground arith

pub event_handle_able-tid : (e : Events) → (event_handle_able e).0.tid ≡ e.tid
unfolding event_handle_able drop_read drop_write delete_event_mutable
event_handle_able-tid e = ground arith

drop_read-IsU32 : (e : Events) → IsU32 e.mutable → IsU32 (drop_read e).mutable
unfolding drop_read delete_event_mutable
drop_read-IsU32 e w = elim (Bool-cases (is_read e && not (origin_read e))) [
  | inl t ↦ rw t (bit_and-IsU32 e.mutable (bit_not k_read_event) w)
  | inr f ↦ rw f w
]

drop_write-IsU32 : (e : Events) → IsU32 e.mutable → IsU32 (drop_write e).mutable
unfolding drop_write delete_event_mutable
drop_write-IsU32 e w = elim (Bool-cases (is_write e && not (origin_write e))) [
  | inl t ↦ rw t (bit_and-IsU32 e.mutable (bit_not k_write_event) w)
  | inr f ↦ rw f w
]

-- An object in state MOD that asks for neither reading nor writing is not worth handling, if only
-- POLLIN, POLLPRI and POLLOUT were reported: nothing is left of the mask.
pub unasked-not_able :
    (e : Events)
    → e.state ≡ State.modified
    → IsU32 e.mutable
    → origin_read e ≡ false
    → origin_write e ≡ false
    → ((k : ℕ) → k < 32 → bit k e.mutable ≤ max (bit k k_read_event) (bit k k_write_event))
    → ((event_handle_able e).0.mutable ≡ 0) × ((event_handle_able e).1 ≡ false)
unasked-not_able e m w r wr only =
    let (bits, same, able) = event_handle_able_modified e m in
    let fits : IsU32 (event_handle_able e).0.mutable =
      rw (able_modified e m) (drop_write-IsU32 (drop_read e) (drop_read-IsU32 e w)) in
    let empty : (event_handle_able e).0.mutable ≡ 0 =
      bit_ext (event_handle_able e).0.mutable 0 fits (omega arith) (λ k lt. ground (
        arith,
        bits k lt,
        only k lt,
        bit-zero k,
        bit-le-one k k_read_event,
        bit-le-one k k_write_event,
        nat_beq_iff (bit k k_read_event) 1,
        nat_beq_iff (bit k k_write_event) 1,
      )) in
    (empty, not_able able.0 empty)
  where
    not_able :
        ((event_handle_able e).1 ≡ true → (event_handle_able e).0.mutable ≢ 0)
        → (event_handle_able e).0.mutable ≡ 0
        → (event_handle_able e).1 ≡ false
    not_able h z = elim (Bool-cases (event_handle_able e).1) [ inl t ↦ absurd (h t z) | inr f ↦ f ]

-- An object that is NEW, or MOD and asks for reading, is worth handling where POLLIN was reported.
pub readable_able :
    (e : Events)
    → (e.state ≡ State.new) ⊎ (e.state ≡ State.modified)
    → origin_read e ≡ true
    → bit 0 e.mutable ≡ 1
    → (event_handle_able e).1 ≡ true
unfolding bit
readable_able e (inl n) r h = rw (event_handle_able_other e (λ m. cc)) (rw n)
readable_able e (inr m) r h =
    let (bits, same, able) = event_handle_able_modified e m in
    let kept : bit 0 (event_handle_able e).0.mutable ≡ 1 =
      bits 0 (omega arith) ∙ simp (r, h) refl in
    able.1 (λ z. absurd (omega (arith, ap (bit 0) z, bit-zero 0)))

-- What eventHandleAble leaves of an object that is NEW or MOD, in its other fields.
pub event_handle_able_same :
    (e : Events)
    → (e.state ≡ State.new) ⊎ (e.state ≡ State.modified)
    → let d = (event_handle_able e).0 in
      (d.fd ≡ e.fd) × (d.tid ≡ e.tid) × (d.eorigin ≡ e.eorigin) × (d.state ≡ e.state)
event_handle_able_same e (inl n) =
    let same = ap (λ r. r.0) (event_handle_able_other e (λ m. cc)) in
    (ap (λ d. d.fd) same, ap (λ d. d.tid) same, ap (λ d. d.eorigin) same, ap (λ d. d.state) same)
event_handle_able_same e (inr m) =
    let (bits, (fd, eorigin, tid, type, state), able) = event_handle_able_modified e m in
    (fd, tid, eorigin, state)
