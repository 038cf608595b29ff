-- ===== src/Keyboard/Rounds.antt =====
-- The rounds of FakeKeyboard::Consume: each fires what is due, and a run of them stays sound.
use halo_keyboard.Prelude.{
  ℕ, zero, suc, ℤ, pos, ◌≡◌, refl, Bool, true, false, not, ◌&&◌, List, [], ◌∷◌, Option, none, some,
  Option-cases, Bool-cases, All-map, inl, inr, ◌∙◌, sym, Distinct, find, length, ◌≤◌, arith, All,
  int_eq,
}
use halo_keyboard.System.{Os, ok}
use halo_keyboard.Multitouch.StateMachine.{Snapshot, add_event, fill_snapshot}
use halo_keyboard.Multitouch.Frames.{is_report, add_event_complete}
use halo_keyboard.Multitouch.Snapshots.{fill_snapshot-Distinct}
use halo_keyboard.Keyboard.Time.{Timespec}
use halo_keyboard.Keyboard.Queue.{Event, erase_events}
use halo_keyboard.Keyboard.State.{Keyboard, FingerData, RejectionStatus}
use halo_keyboard.Keyboard.Fingers.{is_not_rejected, process_incoming_snapshot}
use halo_keyboard.Keyboard.Soundness.{IsSound}
use halo_keyboard.Keyboard.Freshness.{IsReportable}
use halo_keyboard.Keyboard.Preservation.{popped}
use halo_keyboard.Keyboard.Ordering.{NotBefore, later_trans}
use halo_keyboard.Keyboard.Time.{timespec_is_later}
use halo_keyboard.Uinput.{send_event}
use halo_keyboard.Input.{ev_syn, syn_report, InputEvent}
use halo_keyboard.Keyboard.Consume.{tap_rejection, fire_event, fire_pending, flush, round}
use halo_keyboard.System.{◌>>=◌}
use halo_keyboard.Uinput.Writes.{Ends, Ends-bind, Ends-map, send_event-Ends, done}
use halo_keyboard.Keyboard.Frames.{process_incoming_snapshot-IsSound}
use halo_keyboard.Keyboard.Freshness.{IsReportable}
use halo_keyboard.Keyboard.Firing.{
  tap_rejection_total, send_key_untracked-IsSound, send_key_tracked-IsSound, reject_popped-IsSound,
}

-- The event is not due at `now`.
abbrev pub IsLater : Timespec → Event → Type 0
IsLater now e = timespec_is_later e.deadline now ≡ true

length-erase_events : (t : ℤ) (q : List Event) → length (erase_events t q) ≤ length q
unfolding erase_events
length-erase_events t [] = omega arith
length-erase_events t (e ∷ q) = ground (arith, length-erase_events t q)

abbrev pub Fired : ℕ → Keyboard × Bool → Type 0
Fired n r = IsSound r.0 × (length r.0.pending_events ≤ n)

module _ (os : Os) (e : Event) (q : List Event) (kb : Keyboard) (b : Bool)
    (v : IsSound (record kb { pending_events = e ∷ q })) where
  fire_tracked-Ends :
      (fd : FingerData) (o : Option RejectionStatus)
      → find e.tid kb.finger_data ≡ some fd
      → tap_rejection kb.layout fd ≡ ok o
      → ((reason : RejectionStatus) → o ≡ some reason → is_not_rejected reason ≡ false)
      → Ends os (Fired (length q)) (fire_event os e (record kb { pending_events = q }) b)
  unfolding fire_event
  fire_tracked-Ends fd none f t r =
      rw (f, t, fire_event)
        (Ends-bind (send_key_tracked-IsSound os e q kb v fd f)
          λ kb' p. done (p.0, ground (arith, p.1)))
  fire_tracked-Ends fd (some reason) f t r =
      let p = reject_popped-IsSound os e q kb v fd f reason (r reason refl) in
      rw (f, t, fire_event) (done (p.0, ground (arith, p.1, length-erase_events e.tid q)))

  pub fire_event-Ends :
      Ends os (Fired (length q)) (fire_event os e (record kb { pending_events = q }) b)
  unfolding fire_event
  fire_event-Ends = elim (Option-cases (find e.tid kb.finger_data)) [
    | inl f ↦
        rw (f, fire_event)
          (Ends-bind (send_key_untracked-IsSound os e q kb v f)
            λ kb' p. done (p.0, ground (arith, p.1)))
    | inr (fd, f) ↦
        (let (o, t, r) = tap_rejection_total kb.layout fd (
            (v.tracking.fingers e.tid fd f).1
              (ground (arith, popped kb.layout kb.finger_data e q v.tracking fd f))) in
          fire_tracked-Ends fd o f t r)
  ]

rest-IsLater :
    (now : Timespec) (e : Event) (q : List Event)
    → IsLater now e
    → All (NotBefore e) q
    → All (IsLater now) q
rest-IsLater now e q l =
    All-map (NotBefore e) (IsLater now) q (λ f n. later_trans now e.deadline f.deadline l n)

-- The loop ends with no event due: the length of the queue is fuel enough.
fire_pending-Ends :
    (fuel : ℕ) (os : Os) (now : Timespec) (q : List Event) (kb : Keyboard) (b : Bool)
    → length q ≤ fuel
    → IsSound (record kb { pending_events = q })
    → Ends os
        (λ r. IsSound r.0 × All (IsLater now) r.0.pending_events)
        (fire_pending fuel os now (record kb { pending_events = q }) b)
unfolding fire_pending
fire_pending-Ends zero os now [] kb b h v = done (v, tt)
fire_pending-Ends zero os now (e ∷ q) kb b h v = absurd (omega arith)
fire_pending-Ends (suc fuel) os now [] kb b h v = done (v, tt)
fire_pending-Ends (suc fuel) os now (e ∷ q) kb b h v =
    elim (Bool-cases (timespec_is_later e.deadline now)) [
      | inl l ↦ rw (l, fire_pending) (done (v, (l, rest-IsLater now e q l v.sorted.0)))
      | inr l ↦
          rw (l, fire_pending)
            (Ends-bind (fire_event-Ends os e q kb b v) λ r p.
              fire_pending-Ends fuel os now r.0.pending_events r.0 r.1 (omega (arith, p.1)) p.0)
    ]

pub send_syn-Ends :
    (os : Os) (kb : Keyboard)
    → IsSound kb
    → Ends os
        (λ trace. IsSound (record kb { trace = trace }))
        (send_event os kb.fd kb.trace ev_syn syn_report (pos 0))
send_syn-Ends os kb v =
    Ends-map (send_event-Ends os kb.fd kb.trace ev_syn syn_report (pos 0)) λ trace e. record {
      tracking = v.tracking;
      sorted = v.sorted;
      balanced = λ c. rw e (ground (arith, v.balanced c));
    }

abbrev pub Flushed : Timespec → Keyboard → Type 0
Flushed now kb = IsSound kb × All (IsLater now) kb.pending_events

-- Whatever is due is sent or rejected, in one go.
pub flush-Ends :
    (os : Os) (now : Timespec) (kb : Keyboard)
    → IsSound kb
    → Ends os (Flushed now) (flush os now kb)
unfolding flush
flush-Ends os now kb v =
    Ends-bind
      (fire_pending-Ends (length kb.pending_events) os now kb.pending_events kb false (omega arith)
        v)
      λ fired p. elim (Bool-cases fired.1) [
        | inl e ↦ rw e (Ends-bind (send_syn-Ends os fired.0 p.0) λ trace w. done (w, p.1))
        | inr e ↦ rw e (done p)
      ]

-- Whether the event ends a frame.
abbrev pub ends_frame : Keyboard → InputEvent → Bool
ends_frame kb ev = is_report ev && not kb.sm.dropping_events

-- What the sensor is trusted with: a frame reports no finger under kOldTID, and no new finger under
-- the id of one that has an event pending.
abbrev pub CanReport : Keyboard → Option InputEvent → Type 0
CanReport kb none = Unit
CanReport kb (some ev) = ends_frame kb ev ≡ true → All (IsReportable kb) (fill_snapshot kb.sm)

abbrev pub Rounded : Timespec → Option InputEvent → Keyboard → Keyboard → Type 0
Rounded now polled kb kb' =
    IsSound kb'
    × (elim polled as (λ _. Bool) [ none ↦ true | some ev ↦ ends_frame kb ev ] ≡ true
        → All (IsLater now) kb'.pending_events)

frame-Ends :
    (os : Os) (now : Timespec) (snapshot : Snapshot) (kb : Keyboard)
    → Distinct snapshot
    → All (IsReportable kb) snapshot
    → IsSound kb
    → Ends os (Flushed now) (process_incoming_snapshot os now snapshot kb >>= flush os now)
frame-Ends os now snapshot kb d h v =
    let (kb', e, v', t) = process_incoming_snapshot-IsSound os now snapshot kb d h v in
    rw e (flush-Ends os now kb' v')

-- A round of Consume on a sound FakeKeyboard, with an event that can be reported or a timeout, ends
-- with a sound one, or with the exception of an incomplete write; after a timeout and after the end
-- of a frame no pending event is due.
pub round-Ends :
    (os : Os) (now : Timespec) (polled : Option InputEvent) (kb : Keyboard)
    → CanReport kb polled
    → IsSound kb
    → Ends os (Rounded now polled kb) (round os now polled kb)
unfolding round
round-Ends os now none kb h v = Ends-map (flush-Ends os now kb v) λ kb' p. (p.0, λ _. p.1)
round-Ends os now (some ev) kb h v =
    let (c, t, u) = add_event_complete kb.sm ev (some []) in
    let kb1 : Keyboard = record kb { sm = (add_event kb.sm ev (some [])).machine } in
    let v1 : IsSound kb1 = record {
      tracking = v.tracking;
      sorted = v.sorted;
      balanced = v.balanced;
    } in
    elim (Bool-cases (add_event kb.sm ev (some [])).complete) [
      | inl e ↦
          rw (e, (t e).1)
            (Ends-map
              (frame-Ends os now (fill_snapshot kb.sm) kb1 (fill_snapshot-Distinct kb.sm)
                (h (sym c ∙ e)) v1)
              λ kb' p. (p.0, λ _. p.1))
      | inr e ↦ rw e (done (v1, λ k. cc (c, e, k)))
    ]
