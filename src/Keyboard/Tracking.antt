-- ===== src/Keyboard/Tracking.antt =====
-- How the pending events and the tracked fingers of a FakeKeyboard fit together.
use halo_keyboard.Prelude.{
  ℤ, ◌≡◌, refl, Bool, true, false, not, ◌&&◌, List, [], ◌∷◌, none, some, Map, Distinct, find,
  find-insert, find-erase, insert, erase, arith, All, count_if, one_if, ◌==◌, ◌==ℤ◌, ==ℤ_iff,
  if◌then◌else◌, int_eq,
}
use halo_keyboard.Keyboard.Key.{Key}
use halo_keyboard.Keyboard.Queue.{Event, enqueue, erase_events, guarantee, found_up}
use halo_keyboard.Keyboard.State.{Keyboard, FingerData, old_tid}
use halo_keyboard.Keyboard.Fingers.{is_not_rejected, layout_at}
use halo_keyboard.Keyboard.Counts.{has_tid}

abbrev pub is_waiting : FingerData → Bool
is_waiting fd = is_not_rejected fd.rejection_status && not fd.down_sent

-- A key-up is guaranteed and belongs to no finger. A key-down is guaranteed exactly when its finger
-- is not tracked any more; else its finger waits for it, with the code of the event.
abbrev pub tracks : Map ℤ FingerData → Event → Bool
tracks fds e =
    if e.is_down
    then not (e.tid ==ℤ old_tid) && elim (find e.tid fds) [
      | none ↦ e.is_guaranteed
      | some fd ↦ not e.is_guaranteed && is_waiting fd && fd.event_code == e.ev_code
    ]
    else e.tid ==ℤ old_tid && e.is_guaranteed

abbrev pub Tracked : Map ℤ FingerData → List Event → Type 0
Tracked fds = All (λ e. tracks fds e ≡ true)

abbrev pub is_key : List Key → ℤ → Bool
is_key layout n = elim (layout_at layout n) [ none ↦ false | some key ↦ true ]

-- A finger has one pending event while it waits for its key-down, and none else; if it is not
-- rejected, it started on a key of the layout.
abbrev pub IsFinger : List Key → List Event → ℤ → FingerData → Type 0
IsFinger layout q t fd =
    (count_if (has_tid t) q ≡ one_if (is_waiting fd))
    × (is_not_rejected fd.rejection_status ≡ true → is_key layout fd.starting_key_number ≡ true)

pub record InStep (layout : List Key) (fds : Map ℤ FingerData) (q : List Event) : Type 0 where
  pub distinct : Distinct fds
  pub no_old : find old_tid fds ≡ none
  pub events : Tracked fds q
  pub fingers : (t : ℤ) (fd : FingerData) → find t fds ≡ some fd → IsFinger layout q t fd

abbrev pub Tracking : Keyboard → Type 0
Tracking kb = InStep kb.layout kb.finger_data kb.pending_events

-- A finger that has no event may change as it likes.
pub insert-Tracked_absent :
    (t : ℤ) (fd : FingerData) (fds : Map ℤ FingerData) (q : List Event)
    → count_if (has_tid t) q ≡ 0
    → Tracked fds q
    → Tracked (insert t fd fds) q
insert-Tracked_absent t fd fds [] z h = tt
insert-Tracked_absent t fd fds (e ∷ q) z h = ground (
  arith,
  insert-Tracked_absent t fd fds q,
  find-insert t e.tid fd fds,
  ==ℤ_iff t e.tid,
  ==ℤ_iff e.tid t,
)

-- So may any finger in what its event does not depend on.
pub insert-Tracked_same :
    (t : ℤ) (old new : FingerData) (fds : Map ℤ FingerData) (q : List Event)
    → find t fds ≡ some old
    → is_waiting new ≡ is_waiting old
    → new.event_code ≡ old.event_code
    → Tracked fds q
    → Tracked (insert t new fds) q
insert-Tracked_same t old new fds [] f w c h = tt
insert-Tracked_same t old new fds (e ∷ q) f w c h = ground (
  arith,
  insert-Tracked_same t old new fds q f w c h.1,
  find-insert t e.tid new fds,
  ==ℤ_iff t e.tid,
)

pub erase-Tracked_absent :
    (t : ℤ) (fds : Map ℤ FingerData) (q : List Event)
    → Distinct fds
    → count_if (has_tid t) q ≡ 0
    → Tracked fds q
    → Tracked (erase t fds) q
erase-Tracked_absent t fds [] d z h = tt
erase-Tracked_absent t fds (e ∷ q) d z h = ground (
  arith,
  erase-Tracked_absent t fds q d,
  find-erase t e.tid fds d,
  ==ℤ_iff t e.tid,
  ==ℤ_iff e.tid t,
)

-- When a waiting finger leaves, its one event becomes guaranteed.
pub guarantee-Tracked :
    (t : ℤ) (fd : FingerData) (fds : Map ℤ FingerData) (q : List Event)
    → Distinct fds
    → find t fds ≡ some fd
    → find old_tid fds ≡ none
    → count_if (has_tid t) q ≡ 1
    → Tracked fds q
    → Tracked (erase t fds) (guarantee t q)
unfolding guarantee
guarantee-Tracked t fd fds [] d f o z h = tt
guarantee-Tracked t fd fds (e ∷ q) d f o z h = ground (
  arith,
  guarantee-Tracked t fd fds q d f o,
  erase-Tracked_absent t fds q d,
  find-erase t e.tid fds d,
  ==ℤ_iff t e.tid,
  ==ℤ_iff e.tid t,
  ==ℤ_iff e.tid old_tid,
)

pub enqueue-Tracked :
    (ev : Event) (fds : Map ℤ FingerData) (q : List Event)
    → tracks fds ev ≡ true
    → Tracked fds q
    → Tracked fds (enqueue ev q)
unfolding enqueue
enqueue-Tracked ev fds [] e h = (e, tt)
enqueue-Tracked ev fds (it ∷ q) e h = ground (arith, enqueue-Tracked ev fds q e h.1)

pub erase_events-Tracked :
    (t : ℤ) (fds : Map ℤ FingerData) (q : List Event)
    → Tracked fds q
    → Tracked fds (erase_events t q)
unfolding erase_events
erase_events-Tracked t fds [] h = tt
erase_events-Tracked t fds (it ∷ q) h = ground (arith, erase_events-Tracked t fds q h.1)

-- The event that HandleLeavingFinger finds is a key-down.
pub found_up-Tracked :
    (t : ℤ) (fd : FingerData) (fds : Map ℤ FingerData) (q : List Event)
    → find t fds ≡ some fd
    → find old_tid fds ≡ none
    → Tracked fds q
    → found_up t q ≡ false
unfolding found_up
found_up-Tracked t fd fds [] f o h = refl
found_up-Tracked t fd fds (e ∷ q) f o h =
    ground (arith, found_up-Tracked t fd fds q f o h.1, ==ℤ_iff e.tid t, ==ℤ_iff e.tid old_tid)
