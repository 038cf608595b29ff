-- ===== src/Keyboard/Balance.antt =====
-- Key-downs against key-ups: what has been sent, what is pending, and what fingers hold down.
use halo_keyboard.Prelude.{
  ℕ, ℤ, pos, ◌+◌, ◌%◌, ◌^◌, ◌≡◌, Bool, false, not, ◌&&◌, List, [], ◌∷◌, none, some, Map, find,
  insert, erase, count_values, count_values-insert_new, count_values-insert_old, count_values-erase,
  arith, count_if, one_if, ◌==◌, ◌==ℤ◌, ==ℤ_iff, int_eq,
}
use halo_keyboard.Input.{ev_key}
use halo_keyboard.System.{
  Syscall, open_file, close_file, write_event, ioctl, select_file, read_event,
}
use halo_keyboard.Keyboard.Queue.{Event, enqueue, erase_events, guarantee}
use halo_keyboard.Keyboard.State.{Keyboard, FingerData, old_tid}
use halo_keyboard.Keyboard.Fingers.{is_not_rejected}
use halo_keyboard.Keyboard.Counts.{has_tid, count_if-enqueue}
use halo_keyboard.Keyboard.Tracking.{Tracked}

-- The code that the kernel sees.
abbrev pub has_code : ℕ → ℕ → Bool
has_code c n = n % 2 ^ 16 == c

-- A key event with the code `c` was written.
abbrev pub is_sent : ℕ → ℤ → Syscall → Bool
is_sent c v (open_file _) = false
is_sent c v (close_file _) = false
is_sent c v (ioctl _ _) = false
is_sent c v (select_file _ _ _) = false
is_sent c v (read_event _) = false
is_sent c v (write_event _ ev) = ev.type == ev_key && ev.code == c && ev.value ==ℤ v

-- A key-down that will be sent whatever happens.
abbrev pub owes_down : ℕ → Event → Bool
owes_down c e = e.is_down && e.is_guaranteed && has_code c e.ev_code

abbrev pub owes_up : ℕ → Event → Bool
owes_up c e = not e.is_down && has_code c e.ev_code

-- The finger holds the key down.
abbrev pub holds : ℕ → FingerData → Bool
holds c fd = is_not_rejected fd.rejection_status && fd.down_sent && has_code c fd.event_code

abbrev pub Even : ℕ → Map ℤ FingerData → List Event → List Syscall → Type 0
Even c fds q trace =
    count_if (is_sent c (pos 1)) trace + count_if (owes_down c) q
    ≡ count_if (is_sent c (pos 0)) trace + count_if (owes_up c) q + count_values (holds c) fds

-- For each code: the key-downs sent, and those that are certain to be sent, are as many as the
-- key-ups sent, those pending, and the fingers that hold the key down.
abbrev pub Balanced : Keyboard → Type 0
Balanced kb = (c : ℕ) → Even c kb.finger_data kb.pending_events kb.trace

-- Erasing the events of a tracked finger erases no event that is owed.
pub erase_events-owes :
    (c : ℕ) (t : ℤ) (fd : FingerData) (fds : Map ℤ FingerData) (q : List Event)
    → find t fds ≡ some fd
    → find old_tid fds ≡ none
    → Tracked fds q
    → (count_if (owes_down c) (erase_events t q) ≡ count_if (owes_down c) q)
      × (count_if (owes_up c) (erase_events t q) ≡ count_if (owes_up c) q)
unfolding erase_events
erase_events-owes c t fd fds [] f o h = ground arith
erase_events-owes c t fd fds (e ∷ q) f o h =
    ground (arith, erase_events-owes c t fd fds q f o h.1, ==ℤ_iff e.tid t, ==ℤ_iff e.tid old_tid)

-- The event of a finger that leaves becomes owed.
pub guarantee-owes :
    (c : ℕ) (t : ℤ) (fd : FingerData) (fds : Map ℤ FingerData) (q : List Event)
    → find t fds ≡ some fd
    → find old_tid fds ≡ none
    → count_if (has_tid t) q ≡ 1
    → Tracked fds q
    → (count_if (owes_down c) (guarantee t q)
        ≡ count_if (owes_down c) q + one_if (has_code c fd.event_code))
      × (count_if (owes_up c) (guarantee t q) ≡ count_if (owes_up c) q)
unfolding guarantee
guarantee-owes c t fd fds [] f o z h = absurd (omega arith)
guarantee-owes c t fd fds (e ∷ q) f o z h =
    ground (arith, guarantee-owes c t fd fds q f o, ==ℤ_iff e.tid t, ==ℤ_iff e.tid old_tid)

module _ (c : ℕ) (fds : Map ℤ FingerData) (q : List Event) (trace : List Syscall)
    (b : Even c fds q trace) where
  -- A new finger that holds nothing, with an event that owes nothing.
  pub add-Even :
      (t : ℤ) (fd : FingerData) (ev : Event) (trace' : List Syscall)
      → find t fds ≡ none
      → holds c fd ≡ false
      → owes_down c ev ≡ false
      → owes_up c ev ≡ false
      → count_if (is_sent c (pos 1)) trace' ≡ count_if (is_sent c (pos 1)) trace
      → count_if (is_sent c (pos 0)) trace' ≡ count_if (is_sent c (pos 0)) trace
      → Even c (insert t fd fds) (enqueue ev q) trace'
  add-Even t fd ev trace' f h d u s1 s0 = ground (
    arith,
    b,
    count_values-insert_new (holds c) t fd fds f,
    count_if-enqueue (owes_down c) ev q,
    count_if-enqueue (owes_up c) ev q,
  )

  pub add_idle-Even :
      (t : ℤ) (fd : FingerData)
      → find t fds ≡ none
      → holds c fd ≡ false
      → Even c (insert t fd fds) q trace
  add_idle-Even t fd f h = ground (arith, b, count_values-insert_new (holds c) t fd fds f)

  pub update-Even :
      (t : ℤ) (old new : FingerData)
      → find t fds ≡ some old
      → holds c new ≡ holds c old
      → Even c (insert t new fds) q trace
  update-Even t old new f h = ground (arith, b, count_values-insert_old (holds c) t new old fds f)

  -- A rejected finger that held nothing.
  pub reject-Even :
      (t : ℤ) (old new : FingerData)
      → find t fds ≡ some old
      → find old_tid fds ≡ none
      → Tracked fds q
      → holds c old ≡ false
      → holds c new ≡ false
      → Even c (insert t new fds) (erase_events t q) trace
  reject-Even t old new f o k h h' = ground (
    arith,
    b,
    count_values-insert_old (holds c) t new old fds f,
    erase_events-owes c t old fds q f o k,
  )

  -- A rejected finger that held its key, with the key-up.
  pub reject_down-Even :
      (t : ℤ) (old new : FingerData) (ev : Event)
      → find t fds ≡ some old
      → find old_tid fds ≡ none
      → Tracked fds q
      → holds c new ≡ false
      → owes_up c ev ≡ holds c old
      → owes_down c ev ≡ false
      → Even c (insert t new fds) (enqueue ev (erase_events t q)) trace
  reject_down-Even t old new ev f o k h u d = ground (
    arith,
    b,
    count_values-insert_old (holds c) t new old fds f,
    erase_events-owes c t old fds q f o k,
    count_if-enqueue (owes_down c) ev (erase_events t q),
    count_if-enqueue (owes_up c) ev (erase_events t q),
  )

  -- A finger that leaves: one that held nothing and waited for nothing, one that held its key, and
  -- one that waited for its key-down.
  pub forget-Even :
      (t : ℤ) (fd : FingerData)
      → find t fds ≡ some fd
      → holds c fd ≡ false
      → Even c (erase t fds) q trace
  forget-Even t fd f h = ground (arith, b, count_values-erase (holds c) t fd fds f)

  pub forget_down-Even :
      (t : ℤ) (fd : FingerData) (ev : Event)
      → find t fds ≡ some fd
      → owes_up c ev ≡ holds c fd
      → owes_down c ev ≡ false
      → Even c (erase t fds) (enqueue ev q) trace
  forget_down-Even t fd ev f u d = ground (
    arith,
    b,
    count_values-erase (holds c) t fd fds f,
    count_if-enqueue (owes_down c) ev q,
    count_if-enqueue (owes_up c) ev q,
  )

  pub forget_waiting-Even :
      (t : ℤ) (fd : FingerData) (ev : Event)
      → find t fds ≡ some fd
      → find old_tid fds ≡ none
      → count_if (has_tid t) q ≡ 1
      → Tracked fds q
      → holds c fd ≡ false
      → owes_up c ev ≡ has_code c fd.event_code
      → owes_down c ev ≡ false
      → Even c (erase t fds) (enqueue ev (guarantee t q)) trace
  forget_waiting-Even t fd ev f o z k h u d = ground (
    arith,
    b,
    count_values-erase (holds c) t fd fds f,
    guarantee-owes c t fd fds q f o z k,
    count_if-enqueue (owes_down c) ev (guarantee t q),
    count_if-enqueue (owes_up c) ev (guarantee t q),
  )
