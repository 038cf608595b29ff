-- ===== src/Keyboard/Counts.antt =====
-- How many pending events pass a test, before and after each change of the queue.
use halo_keyboard.Prelude.{ℤ, ◌+◌, ◌≡◌, Bool, false, List, [], ◌∷◌, arith, count_if, one_if, ◌==ℤ◌}
use halo_keyboard.Keyboard.Queue.{Event, enqueue, erase_events, guarantee}

abbrev pub has_tid : ℤ → Event → Bool
has_tid t e = e.tid ==ℤ t

pub count_if-enqueue :
    (p : Event → Bool) (ev : Event) (q : List Event)
    → count_if p (enqueue ev q) ≡ one_if (p ev) + count_if p q
unfolding enqueue
count_if-enqueue p ev [] = ground arith
count_if-enqueue p ev (it ∷ q) = ground (arith, count_if-enqueue p ev q)

-- No event of the finger is left.
pub count_if-erase_events_self :
    (t : ℤ) (q : List Event) → count_if (has_tid t) (erase_events t q) ≡ 0
unfolding erase_events
count_if-erase_events_self t [] = ground arith
count_if-erase_events_self t (it ∷ q) = ground (arith, count_if-erase_events_self t q)

pub count_if-erase_events_ne :
    (t s : ℤ) (q : List Event)
    → (s ==ℤ t) ≡ false
    → count_if (has_tid s) (erase_events t q) ≡ count_if (has_tid s) q
unfolding erase_events
count_if-erase_events_ne t s [] h = ground arith
count_if-erase_events_ne t s (it ∷ q) h = ground (arith, count_if-erase_events_ne t s q h)

pub count_if-guarantee :
    (t s : ℤ) (q : List Event) → count_if (has_tid s) (guarantee t q) ≡ count_if (has_tid s) q
unfolding guarantee
count_if-guarantee t s [] = ground arith
count_if-guarantee t s (it ∷ q) = ground (arith, count_if-guarantee t s q)
