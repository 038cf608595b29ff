-- ===== src/Keyboard/Preservation.antt =====
-- Each thing that FakeKeyboard does to its fingers keeps them and the pending events in step.
use halo_keyboard.Prelude.{
  ℕ, suc, ℤ, pos, ◌+◌, ◌≡◌, true, false, List, [], ◌∷◌, none, some, Bool-cases, inl, inr, Map, find,
  find-insert, find-erase, insert, insert-Distinct, erase, erase-Distinct, get_elem?, arith,
  count_if, ◌==ℤ◌, ==ℤ_iff, int_eq,
}
use halo_keyboard.Keyboard.Key.{Key, contains}
use halo_keyboard.Keyboard.Queue.{Event, enqueue, erase_events, guarantee}
use halo_keyboard.Keyboard.State.{FingerData, old_tid}
use halo_keyboard.Keyboard.Fingers.{is_not_rejected, layout_at, key_at}
use halo_keyboard.Keyboard.Counts.{
  has_tid, count_if-enqueue, count_if-erase_events_self, count_if-erase_events_ne,
  count_if-guarantee,
}
use halo_keyboard.Keyboard.Tracking.{
  InStep, is_waiting, is_key, insert-Tracked_absent, insert-Tracked_same, erase-Tracked_absent,
  guarantee-Tracked, enqueue-Tracked, erase_events-Tracked,
}

key_at-get_elem? :
    (n : ℕ) (ks : List Key) (x y : ℤ) (m : ℕ) (key : Key)
    → key_at n ks x y ≡ some (m, key)
    → (i : ℕ) × (m ≡ n + i) × (get_elem? ks i ≡ some key)
unfolding key_at
key_at-get_elem? n [] x y m key h = cc
key_at-get_elem? n (k ∷ ks) x y m key h = elim (Bool-cases (contains k x y)) [
  | inl c ↦ (0, ground arith, ground arith)
  | inr c ↦
      (let (i, e, g) = key_at-get_elem? (suc n) ks x y m key (ground arith) in
        (suc i, omega arith, g))
]

-- The key that an arriving finger starts on is a key of the layout.
pub key_at-is_key :
    (ks : List Key) (x y : ℤ) (m : ℕ) (key : Key)
    → key_at 0 ks x y ≡ some (m, key)
    → is_key ks (pos m) ≡ true
unfolding layout_at
key_at-is_key ks x y m key h =
    let (i, e, g) = key_at-get_elem? 0 ks x y m key h in ground (arith, e, g)

module _ (layout : List Key) (fds : Map ℤ FingerData) (q : List Event)
    (v : InStep layout fds q) where
  -- A new finger that waits for nothing.
  pub add_idle :
      (t : ℤ) (fd : FingerData)
      → (t ==ℤ old_tid) ≡ false
      → find t fds ≡ none
      → count_if (has_tid t) q ≡ 0
      → is_not_rejected fd.rejection_status ≡ false
      → InStep layout (insert t fd fds) q
  add_idle t fd n f z r = record {
    distinct = insert-Distinct t fd fds v.distinct;
    no_old = ground (arith, find-insert t old_tid fd fds, v.no_old);
    events = insert-Tracked_absent t fd fds q z v.events;
    fingers = λ s sd e. ground (arith, find-insert t s fd fds, v.fingers s sd, ==ℤ_iff t s);
  }

  -- A new finger with its event.
  pub add_waiting :
      (t : ℤ) (fd : FingerData) (ev : Event)
      → (t ==ℤ old_tid) ≡ false
      → find t fds ≡ none
      → count_if (has_tid t) q ≡ 0
      → is_waiting fd ≡ true
      → is_key layout fd.starting_key_number ≡ true
      → ev.tid ≡ t
      → ev.is_down ≡ true
      → ev.is_guaranteed ≡ false
      → ev.ev_code ≡ fd.event_code
      → InStep layout (insert t fd fds) (enqueue ev q)
  add_waiting t fd ev n f z w k et ed eg ec = record {
    distinct = insert-Distinct t fd fds v.distinct;
    no_old = ground (arith, find-insert t old_tid fd fds, v.no_old);
    events =
        enqueue-Tracked ev (insert t fd fds) q (ground (arith, find-insert t t fd fds, ==ℤ_iff t t))
          (insert-Tracked_absent t fd fds q z v.events);
    fingers = λ s sd e. ground (
      arith,
      find-insert t s fd fds,
      v.fingers s sd,
      ==ℤ_iff t s,
      count_if-enqueue (has_tid s) ev q,
    );
  }

  -- A tracked finger whose data change in what its event does not depend on.
  pub update :
      (t : ℤ) (old new : FingerData)
      → find t fds ≡ some old
      → is_waiting new ≡ is_waiting old
      → new.event_code ≡ old.event_code
      → new.rejection_status ≡ old.rejection_status
      → new.starting_key_number ≡ old.starting_key_number
      → InStep layout (insert t new fds) q
  update t old new f w c r k = record {
    distinct = insert-Distinct t new fds v.distinct;
    no_old = ground (arith, find-insert t old_tid new fds, v.no_old, ==ℤ_iff t old_tid);
    events = insert-Tracked_same t old new fds q f w c v.events;
    fingers = λ s sd e.
        ground (arith, find-insert t s new fds, v.fingers s sd, v.fingers t old f, ==ℤ_iff t s);
  }

  -- A tracked finger that is rejected, with its events.
  pub reject :
      (t : ℤ) (old new : FingerData)
      → find t fds ≡ some old
      → is_not_rejected new.rejection_status ≡ false
      → InStep layout (insert t new fds) (erase_events t q)
  reject t old new f r = record {
    distinct = insert-Distinct t new fds v.distinct;
    no_old = ground (arith, find-insert t old_tid new fds, v.no_old, ==ℤ_iff t old_tid);
    events =
        insert-Tracked_absent t new fds (erase_events t q) (count_if-erase_events_self t q)
          (erase_events-Tracked t fds q v.events);
    fingers = λ s sd e. ground (
      arith,
      find-insert t s new fds,
      v.fingers s sd,
      count_if-erase_events_self t q,
      count_if-erase_events_ne t s q,
      ==ℤ_iff t s,
      ==ℤ_iff s t,
    );
  }

  -- A key-up.
  pub enqueue_up :
      (ev : Event)
      → ev.tid ≡ old_tid
      → ev.is_down ≡ false
      → ev.is_guaranteed ≡ true
      → InStep layout fds (enqueue ev q)
  enqueue_up ev et ed eg = record {
    distinct = v.distinct;
    no_old = v.no_old;
    events = enqueue-Tracked ev fds q (ground arith) v.events;
    fingers = λ s sd e.
        ground
          (arith, v.fingers s sd e, v.no_old, count_if-enqueue (has_tid s) ev q, ==ℤ_iff old_tid s);
  }

  -- A tracked finger that waits for nothing is forgotten.
  pub forget_idle :
      (t : ℤ) (fd : FingerData)
      → find t fds ≡ some fd
      → is_waiting fd ≡ false
      → InStep layout (erase t fds) q
  forget_idle t fd f w = record {
    distinct = erase-Distinct t fds v.distinct;
    no_old = ground (arith, find-erase t old_tid fds v.distinct, v.no_old);
    events = erase-Tracked_absent t fds q v.distinct (ground (arith, v.fingers t fd f)) v.events;
    fingers = λ s sd e. ground (arith, find-erase t s fds v.distinct, v.fingers s sd);
  }

  -- A tracked finger that waits is forgotten, and its event becomes guaranteed.
  pub forget_waiting :
      (t : ℤ) (fd : FingerData)
      → find t fds ≡ some fd
      → is_waiting fd ≡ true
      → InStep layout (erase t fds) (guarantee t q)
  forget_waiting t fd f w = record {
    distinct = erase-Distinct t fds v.distinct;
    no_old = ground (arith, find-erase t old_tid fds v.distinct, v.no_old);
    events =
        guarantee-Tracked t fd fds q v.distinct f v.no_old (ground (arith, v.fingers t fd f))
          v.events;
    fingers = λ s sd e.
        ground (arith, find-erase t s fds v.distinct, v.fingers s sd, count_if-guarantee t s q);
  }

module _ (layout : List Key) (fds : Map ℤ FingerData) (e : Event) (q : List Event)
    (v : InStep layout fds (e ∷ q)) where
  -- The first event is taken off, and no finger waits for it.
  pub pop_untracked : find e.tid fds ≡ none → InStep layout fds q
  pop_untracked f = record {
    distinct = v.distinct;
    no_old = v.no_old;
    events = v.events.1;
    fingers = λ s sd g. ground (arith, v.fingers s sd g, ==ℤ_iff e.tid s);
  }

  -- The first event is the key-down that its finger waits for, and the finger has no other.
  pub popped :
      (fd : FingerData)
      → find e.tid fds ≡ some fd
      → (is_waiting fd ≡ true)
        × (count_if (has_tid e.tid) q ≡ 0)
        × (e.is_down ≡ true)
        × (e.is_guaranteed ≡ false)
        × (e.ev_code ≡ fd.event_code)
  popped fd f = ground (
    arith,
    v.events.0,
    v.no_old,
    v.fingers e.tid fd f,
    ==ℤ_iff e.tid old_tid,
    ==ℤ_iff e.tid e.tid,
  )

  -- The first event is taken off, and its finger has its key down.
  pub pop_sent :
      (fd : FingerData)
      → find e.tid fds ≡ some fd
      → InStep layout (insert e.tid (record fd { down_sent = true }) fds) q
  pop_sent fd f =
      let none_left = popped fd f in
      record {
        distinct = insert-Distinct e.tid (record fd { down_sent = true }) fds v.distinct;
        no_old = ground (
          arith,
          find-insert e.tid old_tid (record fd { down_sent = true }) fds,
          v.no_old,
          ==ℤ_iff e.tid old_tid,
        );
        events =
            insert-Tracked_absent e.tid (record fd { down_sent = true }) fds q none_left.1
              v.events.1;
        fingers = λ s sd g. ground (
          arith,
          find-insert e.tid s (record fd { down_sent = true }) fds,
          v.fingers s sd,
          v.fingers e.tid fd f,
          none_left,
          ==ℤ_iff e.tid s,
        );
      }

  -- The first event is taken off, and its finger is rejected.
  pub pop_rejected :
      (fd new : FingerData)
      → find e.tid fds ≡ some fd
      → is_not_rejected new.rejection_status ≡ false
      → InStep layout (insert e.tid new fds) (erase_events e.tid q)
  pop_rejected fd new f r = record {
    distinct = insert-Distinct e.tid new fds v.distinct;
    no_old = ground (arith, find-insert e.tid old_tid new fds, v.no_old, ==ℤ_iff e.tid old_tid);
    events =
        insert-Tracked_absent e.tid new fds (erase_events e.tid q)
          (count_if-erase_events_self e.tid q) (erase_events-Tracked e.tid fds q v.events.1);
    fingers = λ s sd g. ground (
      arith,
      find-insert e.tid s new fds,
      v.fingers s sd,
      count_if-erase_events_self e.tid q,
      count_if-erase_events_ne e.tid s q,
      ==ℤ_iff e.tid s,
      ==ℤ_iff s e.tid,
    );
  }
