-- ===== src/Process/Updates.antt =====
-- updateEvents of base/EventLoop.cpp in one of several loops, and what it leaves of the others.
use fasco.Base.{
  ℕ, ◌≡◌, refl, ◌≢◌, ◌∙◌, Bool, some, inl, inr, Bool-cases, nat_beq, nat_beq_iff, ap, sym, arith,
  get_elem?,
}
use fasco.Base.Int.{ℤ, int_eq}
use fasco.Base.Outcome.{ok, >>=-eq-ok, ok-injective}
use fasco.Kernel.{Kernel}
use fasco.EventLoop.{World}
use fasco.EventLoop
use fasco.EventLoop.Step.{known}
use fasco.EventLoop.Sync.{NoStray, Update-NoStray}
use fasco.EventLoop.Elsewhere.{Elsewhere, update_events-Elsewhere}
use fasco.EventLoop.Update.{Update-known}
use fasco.EventLoopPool.{get_loop}
use fasco.Process.{Process, view, loop_update}
use fasco.Process.Sound.{Live, Sound}
use fasco.Process.Views.{Updated, loop_update-Updated}

module _ (k : Kernel) (ndebug : Bool) where
  module _ (l p : ℕ) (w w' : Process k) (b : Bool)
      (e : loop_update k ndebug l p w ≡ ok (w', b)) where
    updated : Updated k ndebug l p w w' b
    updated = loop_update-Updated k ndebug l p w w' b e

    -- Of all loops, only the `events_` of one may differ.
    Updated-loop : (a : ℕ) → w'.loops a ≡ record (w.loops a) { events = (w'.loops a).events }
    Updated-loop a = elim (Bool-cases (nat_beq a l)) [
      | inl here ↦ rw ((nat_beq_iff a l).0 here) updated.frame.2
      | inr there ↦
          let same = updated.others a (λ z. ground (arith, nat_beq_iff a l)) in rw same refl
    ]

    Updated-Live :
        (a : ℕ) → get_loop (w'.loops a).tid w'.registry ≡ get_loop (w.loops a).tid w.registry
    Updated-Live a =
        ap (get_loop (w'.loops a).tid) updated.registry
        ∙ ap (λ x. get_loop x.tid w.registry) (Updated-loop a)

    Updated-Elsewhere : Elsewhere k (w.loops l).poll.epoll_fd w.sys w'.sys
    unfolding loop_update
    Updated-Elsewhere =
        let ((v, c), h, h') = >>=-eq-ok (EventLoop.update_events k ndebug p (view k l w)) _ e in
        rw (← ap (λ r. r.0.sys) (ok-injective h'))
          (update_events-Elsewhere k ndebug p (view k l w) v c h)

    Updated-NoStray : (a : ℕ) → Live k w l → Live k w a → Sound k w → NoStray k (view k a w')
    Updated-NoStray a live la s = elim (Bool-cases (nat_beq a l)) [
      | inl here ↦ rw ((nat_beq_iff a l).0 here) (
          Update-NoStray k ndebug p (view k l w) (view k l w') b updated.update (s.no_stray l live))
      | inr there ↦
          let n : a ≢ l = λ z. ground (arith, nat_beq_iff a l) in
          let same = updated.others a n in
          λ j h.
            ap (λ x. k.interest w'.sys x.poll.epoll_fd j) same
            ∙ Updated-Elsewhere (w.loops a).poll.epoll_fd j (s.apart a l la live n)
            ∙ s.no_stray a la j
                (ap (λ x. known k (record (view k a w) { loop = x }) j) (sym same) ∙ h)
    ]

    Updated-own :
        (a : ℕ) (j : ℤ) (q : ℕ)
        → Live k w a
        → (w.heap p).tid ≡ (w.loops l).tid
        → Sound k w
        → known k (view k a w') j ≡ some q
        → ((w.heap q).fd ≡ j) × ((w.heap q).tid ≡ (w.loops a).tid)
    Updated-own a j q la mine s h = elim (Bool-cases (nat_beq a l)) [
      | inl here ↦
          let at_ = (nat_beq_iff a l).0 here in
          rw at_
            (elim (Update-known k ndebug p (view k l w) (view k l w') b j q updated.update
              (ap (λ x. known k (view k x w') j) (sym at_) ∙ h)) [
                | inl old ↦
                    s.own l j q
                      (ap (λ x. get_loop (w.loops x).tid w.registry) (sym at_) ∙ la ∙ ap some at_)
                      old
                | inr (fd, new) ↦ rw new (fd, mine)
              ])
      | inr there ↦
          let same = updated.others a (λ z. ground (arith, nat_beq_iff a l)) in
          s.own a j q la (ap (λ x. known k (record (view k a w) { loop = x }) j) (sym same) ∙ h)
    ]

    -- updateEvents in a registered loop, of an object of the loop's thread.
    pub loop_update-Sound : Live k w l → (w.heap p).tid ≡ (w.loops l).tid → Sound k w → Sound k w'
    loop_update-Sound live mine s = record {
      home = λ tid a h.
          ap (λ x. x.tid) (Updated-loop a)
          ∙ s.home tid a (ap (get_loop tid) (sym updated.registry) ∙ h);
      in_turn = λ i a h.
          Updated-Live a
          ∙ s.in_turn i a (ap (λ r. get_elem? r.next_loops i) (sym updated.registry) ∙ h);
      main = λ a h. Updated-Live a ∙ s.main a (ap (λ r. r.main_loop) (sym updated.registry) ∙ h);
      apart = λ a c la lc n h.
          s.apart a c (sym (Updated-Live a) ∙ la) (sym (Updated-Live c) ∙ lc) n (
            ap (λ x. x.poll.epoll_fd) (sym (Updated-loop a))
            ∙ h
            ∙ ap (λ x. x.poll.epoll_fd) (Updated-loop c));
      own = λ a j q la h.
          let (fd, tid) = Updated-own a j q (sym (Updated-Live a) ∙ la) mine s h in
          (
            ap (λ hp. (hp q).fd) updated.frame.0 ∙ fd,
            ap (λ hp. (hp q).tid) updated.frame.0 ∙ tid ∙ ap (λ x. x.tid) (sym (Updated-loop a)),
          );
      no_stray = λ a la. Updated-NoStray a live (sym (Updated-Live a) ∙ la) s;
    }
