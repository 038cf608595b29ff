-- ===== src/Uinput/Life.antt =====
-- The life of a UinputDevice, from its construction to its destructor.
use Prim.Native.String.{String}
use mathlib.Core.Path.{subst}
use halo_keyboard.Prelude.{
  ◌≤◌, length, not, ℕ, ℤ, pos, ◌≡◌, refl, sym, Bool, true, false, ◌&&◌, ◌||◌, List, [], ◌∷◌,
  Bool-cases, inl, inr, arith, leb_ℤ, ◌==ℤ◌, if◌then◌else◌,
}
use halo_keyboard.System.{
  Os, Syscall, open_file, close_file, write_event, ioctl, select_file, read_event, Request,
  set_event_type, set_key, set_abs, create_device, destroy_device, ok,
}
use halo_keyboard.Uinput.{send_event}
use halo_keyboard.Uinput.Writes.{send_event-Ends, Ends-ok}
use halo_keyboard.Uinput.Device.{
  UinputDevice, Size, init, destroy, create_uinput_fd, enable_event_type, enable_key_event,
  enable_abs_event, finalize_uinput_creation, copy_abs_output_events,
}
use halo_keyboard.Uinput.Requests.{is_set_up, copy_abs_output_events-Keeps}

-- What the public methods of a device make of it, in any order and with any results; a method that
-- throws ends the life.
pub data Life (os : Os) : UinputDevice → List Syscall → Type 0 where
  constructed : Life os init []
  created_fd :
      {d : UinputDevice} {t : List Syscall}
      → Life os d t
      → Life os (create_uinput_fd os d t).0 (create_uinput_fd os d t).1
  enabled_type :
      {d : UinputDevice} {t : List Syscall}
      → Life os d t
      → (ev_type : ℕ) → Life os d (enable_event_type os d.uinput_fd ev_type t).0
  enabled_key :
      {d : UinputDevice} {t : List Syscall}
      → Life os d t
      → (code : ℕ) → Life os d (enable_key_event os d.uinput_fd code t).0
  enabled_abs :
      {d : UinputDevice} {t : List Syscall}
      → Life os d t
      → (code : ℕ) → Life os d (enable_abs_event os d.uinput_fd code t).0
  copied_abs :
      {d : UinputDevice} {t : List Syscall}
      → Life os d t
      → (source_fd : ℤ) (size : Size)
      → Life os d (copy_abs_output_events os d.uinput_fd source_fd size t).0
  finalized :
      {d : UinputDevice} {t : List Syscall}
      → Life os d t
      → (name : String)
      → Life os (finalize_uinput_creation os d name t).0 (finalize_uinput_creation os d name t).1
  sent :
      {d : UinputDevice} {t t' : List Syscall}
      → Life os d t
      → (ev_type code : ℕ) (value : ℤ) → send_event os d.uinput_fd t ev_type code value ≡ ok t'
      → Life os d t'

-- The descriptors that the system has given, newest first.
pub opened : Os → List Syscall → List ℤ
opened os [] = []
opened os (open_file path ∷ t) =
    let fd = (os t (open_file path)).ret in
    let before = opened os t in if leb_ℤ (pos 0) fd then fd ∷ before else before
opened os (close_file fd ∷ t) = opened os t
opened os (write_event fd ev ∷ t) = opened os t
opened os (ioctl fd r ∷ t) = opened os t
opened os (select_file nfds sec usec ∷ t) = opened os t
opened os (read_event fd ∷ t) = opened os t

-- The descriptors that were closed.
unfoldable pub closed : List Syscall → List ℤ
closed [] = []
closed (open_file path ∷ t) = closed t
closed (close_file fd ∷ t) = fd ∷ closed t
closed (write_event fd ev ∷ t) = closed t
closed (ioctl fd r ∷ t) = closed t
closed (select_file nfds sec usec ∷ t) = closed t
closed (read_event fd ∷ t) = closed t

abbrev is_destroy : Request → Bool
is_destroy destroy_device = true
is_destroy _ = false

abbrev is_create : Request → Bool
is_create create_device = true
is_create _ = false

abbrev holds : ℤ → List ℤ → Bool
holds n [] = false
holds n (k ∷ ks) = k ==ℤ n || holds n ks

-- The descriptors on which the destruction of a device was asked for before they were closed.
pub destroyed : List Syscall → List ℤ
destroyed [] = []
destroyed (open_file path ∷ t) = destroyed t
destroyed (close_file fd ∷ t) = destroyed t
destroyed (write_event fd ev ∷ t) = destroyed t
destroyed (ioctl fd r ∷ t) =
    let before = destroyed t in
    if is_destroy r && not (holds fd (closed t)) then fd ∷ before else before
destroyed (select_file nfds sec usec ∷ t) = destroyed t
destroyed (read_event fd ∷ t) = destroyed t

-- The creation of a device has succeeded.
pub was_created : Os → List Syscall → Bool
was_created os [] = false
was_created os (open_file path ∷ t) = was_created os t
was_created os (close_file fd ∷ t) = was_created os t
was_created os (write_event fd ev ∷ t) = was_created os t
was_created os (ioctl fd r ∷ t) =
    (is_create r && ((os t (ioctl fd r)).ret ==ℤ pos 0)) || was_created os t
was_created os (select_file nfds sec usec ∷ t) = was_created os t
was_created os (read_event fd ∷ t) = was_created os t

abbrev own : UinputDevice → List ℤ
own d = if leb_ℤ (pos 0) d.uinput_fd then d.uinput_fd ∷ [] else []

record IsTracked (os : Os) (d : UinputDevice) (t : List Syscall) : Type 0 where
  pub opens : opened os t ≡ own d
  pub closes : closed t ≡ []
  pub destroys : destroyed t ≡ []
  pub creates : was_created os t ≡ d.device_created

asks-IsTracked :
    (os : Os) (d : UinputDevice) (fd : ℤ) (r : Request) (t : List Syscall)
    → is_set_up r ≡ true
    → IsTracked os d t
    → IsTracked os d (ioctl fd r ∷ t)
unfolding opened closed destroyed was_created
asks-IsTracked os d fd r t s v = record {
  opens = v.opens;
  closes = v.closes;
  destroys = ground (arith, s, v.destroys);
  creates = ground (arith, s, v.creates);
}

create_uinput_fd-IsTracked :
    (os : Os) (d : UinputDevice) (t : List Syscall)
    → IsTracked os d t
    → IsTracked os (create_uinput_fd os d t).0 (create_uinput_fd os d t).1
unfolding create_uinput_fd opened closed destroyed was_created
create_uinput_fd-IsTracked os d t v = elim (Bool-cases (leb_ℤ (pos 0) d.uinput_fd)) [
  | inl l ↦ rw (l, create_uinput_fd) v
  | inr l ↦
      rw (l, create_uinput_fd)
        (record {
          opens = ground (arith, l, v.opens);
          closes = v.closes;
          destroys = v.destroys;
          creates = v.creates;
        })
]

finalize_uinput_creation-IsTracked :
    (os : Os) (d : UinputDevice) (name : String) (t : List Syscall)
    → IsTracked os d t
    → IsTracked os (finalize_uinput_creation os d name t).0 (finalize_uinput_creation os d name t).1
unfolding finalize_uinput_creation opened closed destroyed was_created
finalize_uinput_creation-IsTracked os d name t v = record {
  opens = ground (arith, v.opens);
  closes = ground (arith, v.closes);
  destroys = ground (arith, v.destroys);
  creates = ground (arith, v.creates);
}

Life-IsTracked : {os : Os} {d : UinputDevice} {t : List Syscall} → Life os d t → IsTracked os d t
unfolding opened closed destroyed was_created enable_event_type enable_key_event enable_abs_event
Life-IsTracked constructed = record { opens = refl; closes = refl; destroys = refl; creates = refl }
Life-IsTracked {os} (created_fd {d} {t} l) = create_uinput_fd-IsTracked os d t (Life-IsTracked l)
Life-IsTracked {os} (enabled_type {d} {t} l ev_type) =
    asks-IsTracked os d d.uinput_fd (set_event_type ev_type) t refl (Life-IsTracked l)
Life-IsTracked {os} (enabled_key {d} {t} l code) =
    asks-IsTracked os d d.uinput_fd (set_key code) t refl (Life-IsTracked l)
Life-IsTracked {os} (enabled_abs {d} {t} l code) =
    asks-IsTracked os d d.uinput_fd (set_abs code) t refl (Life-IsTracked l)
Life-IsTracked {os} (copied_abs {d} {t} l source_fd size) =
    copy_abs_output_events-Keeps os (IsTracked os d) (asks-IsTracked os d) d.uinput_fd source_fd
      size t (Life-IsTracked l)
Life-IsTracked {os} (finalized {d} {t} l name) =
    finalize_uinput_creation-IsTracked os d name t (Life-IsTracked l)
Life-IsTracked {os} (sent {d} {t} l ev_type code value e) =
    let v = Life-IsTracked l in
    let q = Ends-ok (send_event-Ends os d.uinput_fd t ev_type code value) e in
    subst (IsTracked os d) (sym q)
      (record { opens = v.opens; closes = v.closes; destroys = v.destroys; creates = v.creates })

-- Whatever public methods a UinputDevice has run, with any system, its destructor leaves no
-- descriptor open: what was closed is what the system had opened, one descriptor at most. The
-- destruction of the device is asked for on this descriptor, once and before it is closed, if a
-- creation had succeeded, and not at all otherwise.
pub Life_ends :
    (os : Os) (d : UinputDevice) (t : List Syscall)
    → Life os d t
    → (opened os (destroy d t) ≡ closed (destroy d t))
      × (length (closed (destroy d t)) ≤ 1)
      × (destroyed (destroy d t) ≡ (if was_created os t then closed (destroy d t) else []))
unfolding destroy opened closed destroyed was_created
Life_ends os d t l =
    let v = Life-IsTracked l in
    (
      ground (arith, v.opens, v.closes),
      ground (arith, v.closes),
      ground (arith, v.closes, v.destroys, v.creates),
    )
