-- ===== src/Keyboard/Ordering.antt =====
-- The queue of pending events is kept in the order of the deadlines.
use halo_keyboard.Prelude.{
  ℤ, ◌≡◌, refl, ap, true, false, List, [], ◌∷◌, ◌++◌, arith, ◌==ℤ◌, All, All-map, Bool-cases, inl,
  inr,
}
use halo_keyboard.Keyboard.Time.{Timespec, timespec_is_later}
use halo_keyboard.Keyboard.Queue.{Event, enqueue, erase_events, guarantee}

-- `f` is due no earlier than `e`.
abbrev pub NotBefore : Event → Event → Type 0
NotBefore e f = timespec_is_later e.deadline f.deadline ≡ false

abbrev pub After : Event → Event → Type 0
After e f = timespec_is_later f.deadline e.deadline ≡ true

abbrev pub IsSorted : List Event → Type 0
IsSorted [] = Unit
IsSorted (e ∷ q) = All (NotBefore e) q × IsSorted q

pub later_trans :
    (t u v : Timespec)
    → timespec_is_later u t ≡ true
    → timespec_is_later u v ≡ false
    → timespec_is_later v t ≡ true
unfolding timespec_is_later
later_trans t u v h k = ground arith

later_asym : (t u : Timespec) → timespec_is_later u t ≡ true → timespec_is_later t u ≡ false
unfolding timespec_is_later
later_asym t u h = ground arith

not_later_trans :
    (t u v : Timespec)
    → timespec_is_later t u ≡ false
    → timespec_is_later u v ≡ false
    → timespec_is_later t v ≡ false
unfolding timespec_is_later
not_later_trans t u v h k = ground arith

-- In a sorted queue EnqueueEvent puts an event behind all that are due no later and before all that
-- are due later, and changes nothing else: events with one deadline stay first in, first out.
pub enqueue_splits :
    (ev : Event) (q : List Event)
    → IsSorted q
    → (before : List Event) × (later : List Event) × (q ≡ before ++ later)
      × (enqueue ev q ≡ before ++ ev ∷ later)
      × All (λ e. NotBefore e ev) before
      × All (After ev) later
unfolding enqueue
enqueue_splits ev [] s = ([], [], refl, refl, tt, tt)
enqueue_splits ev (it ∷ q) s = elim (Bool-cases (timespec_is_later it.deadline ev.deadline)) [
  | inl h ↦ (
    [],
    it ∷ q,
    refl,
    rw h,
    tt,
    (
      h,
      All-map (NotBefore it) (After ev) q
          (λ e k. later_trans ev.deadline it.deadline e.deadline h k) s.0,
    ),
  )
  | inr h ↦
      (let (before, later, e, f, b, l) = enqueue_splits ev q s.1 in
        (it ∷ before, later, ap (◌∷◌ it) e, rw h (ap (◌∷◌ it) f), (h, b), l))
]

All-enqueue {κ} :
    (P : Event → Type κ) (ev : Event) (q : List Event) → P ev → All P q → All P (enqueue ev q)
unfolding enqueue
All-enqueue P ev [] h a = (h, tt)
All-enqueue P ev (it ∷ q) h a = elim (Bool-cases (timespec_is_later it.deadline ev.deadline)) [
  | inl l ↦ rw l (h, (a.0, a.1))
  | inr l ↦ rw l (a.0, All-enqueue P ev q h a.1)
]

pub enqueue-IsSorted : (ev : Event) (q : List Event) → IsSorted q → IsSorted (enqueue ev q)
unfolding enqueue
enqueue-IsSorted ev [] s = (tt, tt)
enqueue-IsSorted ev (it ∷ q) s = elim (Bool-cases (timespec_is_later it.deadline ev.deadline)) [
  | inl l ↦ rw l (
    (
      later_asym ev.deadline it.deadline l,
      All-map (NotBefore it) (NotBefore ev) q
          (λ e k.
            not_later_trans ev.deadline it.deadline e.deadline
              (later_asym ev.deadline it.deadline l) k)
          s.0,
    ),
    s,
  )
  | inr l ↦ rw l (All-enqueue (NotBefore it) ev q l s.0, enqueue-IsSorted ev q s.1)
]

All-erase_events {κ} :
    (P : Event → Type κ) (t : ℤ) (q : List Event) → All P q → All P (erase_events t q)
unfolding erase_events
All-erase_events P t [] a = tt
All-erase_events P t (it ∷ q) a = elim (Bool-cases (it.tid ==ℤ t)) [
  | inl l ↦ rw l (All-erase_events P t q a.1)
  | inr l ↦ rw l (a.0, All-erase_events P t q a.1)
]

pub erase_events-IsSorted : (t : ℤ) (q : List Event) → IsSorted q → IsSorted (erase_events t q)
unfolding erase_events
erase_events-IsSorted t [] s = tt
erase_events-IsSorted t (it ∷ q) s = elim (Bool-cases (it.tid ==ℤ t)) [
  | inl l ↦ rw l (erase_events-IsSorted t q s.1)
  | inr l ↦ rw l (All-erase_events (NotBefore it) t q s.0, erase_events-IsSorted t q s.1)
]

guarantee-NotBefore :
    (e : Event) (t : ℤ) (q : List Event) → All (NotBefore e) q → All (NotBefore e) (guarantee t q)
unfolding guarantee
guarantee-NotBefore e t [] a = tt
guarantee-NotBefore e t (it ∷ q) a = elim (Bool-cases (it.tid ==ℤ t)) [
  | inl l ↦ rw l a
  | inr l ↦ rw l (a.0, guarantee-NotBefore e t q a.1)
]

pub guarantee-IsSorted : (t : ℤ) (q : List Event) → IsSorted q → IsSorted (guarantee t q)
unfolding guarantee
guarantee-IsSorted t [] s = tt
guarantee-IsSorted t (it ∷ q) s = elim (Bool-cases (it.tid ==ℤ t)) [
  | inl l ↦ rw l s
  | inr l ↦ rw l (guarantee-NotBefore it t q s.0, guarantee-IsSorted t q s.1)
]
