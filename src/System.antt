-- ===== src/System.antt =====
-- syscall_handler.h: the operating system as the program sees it. What the kernel answers is not
-- code of the repository, so it is a parameter: a function of the calls made so far and of the
-- call.
use Prim.Native.String.{String}
use mathlib.Core.Path.{subst}
use halo_keyboard.Prelude.{ℕ, ℤ, List, ◌≡◌, refl, Bool, true, false, not, if◌then◌else◌}
use halo_keyboard.Input.{InputEvent}

-- struct input_absinfo, without the fields that the program only copies.
pub record AbsInfo : Type 0 where
  pub minimum : ℤ
  pub maximum : ℤ
  pub resolution : ℤ
  pub rest : List ℤ

-- The ioctl requests: EVIOCGBIT(0), EVIOCGBIT(EV_ABS), EVIOCGABS, UI_SET_EVBIT, UI_SET_KEYBIT,
-- UI_SET_ABSBIT, UI_ABS_SETUP, UI_DEV_SETUP, UI_DEV_CREATE, UI_DEV_DESTROY and EVIOCSFF with the
-- strong magnitude and the length.
pub data Request : Type 0 where
  get_event_types : Request
  get_abs_codes : Request
  get_abs_info : ℕ → Request
  set_event_type : ℕ → Request
  set_key : ℕ → Request
  set_abs : ℕ → Request
  set_up_abs : ℕ → AbsInfo → Request
  set_up_device : String → Request
  create_device : Request
  destroy_device : Request
  upload_effect : ℕ → ℤ → Request

-- The calls that the modelled components make, with the arguments that matter to them; select has
-- its first argument and the seconds and microseconds of the timeout.
pub data Syscall : Type 0 where
  open_file : String → Syscall
  close_file : ℤ → Syscall
  write_event : ℤ → InputEvent → Syscall
  ioctl : ℤ → Request → Syscall
  select_file : ℤ → ℕ → ℕ → Syscall
  read_event : ℤ → Syscall

-- What a call fills in behind a pointer.
pub data Filled : Type 0 where
  nothing : Filled
  filled_bytes : List ℕ → Filled
  filled_info : AbsInfo → Filled
  filled_event : InputEvent → Filled
  filled_id : ℤ → Filled

-- The returned number, errno after the call, and what it filled in.
pub record Reply : Type 0 where
  pub ret : ℤ
  pub errno : ℕ
  pub filled : Filled

abbrev pub Os : Type 0
Os = List Syscall → Syscall → Reply

-- What the program throws; `undefined` stands for undefined behaviour, such as an index out of
-- range.
pub data Failure : Type 0 where
  system_error : ℕ → String → Failure
  runtime_error : String → Failure
  invalid_argument : String → Failure
  out_of_range : Failure
  undefined : Failure

pub data Result {ℓ} (A : Type ℓ) : Type ℓ where
  ok : A → Result A
  err : Failure → Result A

infixl 5 ◌>>=◌
abbrev pub ◌>>=◌ {ℓ κ} : {A : Type ℓ} {B : Type κ} → Result A → (A → Result B) → Result B
ok a >>= f = f a
err e >>= f = err e

-- The two parts of a computation with a result.
pub bind-ok {ℓ κ} :
    {A : Type ℓ} {B : Type κ} (m : Result A) (f : A → Result B) (b : B)
    → (m >>= f) ≡ ok b
    → (a : A) × (m ≡ ok a) × (f a ≡ ok b)
bind-ok (ok a) f b e = (a, refl, e)
bind-ok (err e') f b e = absurd (cc e)

-- What a result is like, if there is one.
pub data Gives {ℓ} {A : Type ℓ} (P : A → Type 0) : Result A → Type ℓ where
  gives : {a : A} → P a → Gives P (ok a)
  throws : {e : Failure} → Gives P (err e)

pub Gives-bind {ℓ κ} :
    {A : Type ℓ} {B : Type κ} {P : A → Type 0} {Q : B → Type 0} {m : Result A} {f : A → Result B}
    → Gives P m
    → ((a : A) → P a → Gives Q (f a))
    → Gives Q (m >>= f)
Gives-bind (gives p) k = k _ p
Gives-bind throws k = throws

pub ok-injective {ℓ} : {A : Type ℓ} {a b : A} → ok a ≡ ok b → a ≡ b
ok-injective e = cc

pub Gives-ok {ℓ} : {A : Type ℓ} {P : A → Type 0} {m : Result A} {a : A} → Gives P m → m ≡ ok a → P a
Gives-ok {P} (gives p) e = subst P (ok-injective e) p
Gives-ok throws e = absurd (cc e)

-- A result with a property, or one of the exceptions by which a failure of the system is reported:
-- never an index out of range nor undefined behaviour.
pub data Safe {ℓ} {A : Type ℓ} (P : A → Type 0) : Result A → Type ℓ where
  result : {a : A} → P a → Safe P (ok a)
  by_system : {errno : ℕ} {what : String} → Safe P (err (system_error errno what))
  by_runtime : {what : String} → Safe P (err (runtime_error what))

pub Safe-bind {ℓ κ} :
    {A : Type ℓ} {B : Type κ} {P : A → Type 0} {Q : B → Type 0} {m : Result A} {f : A → Result B}
    → Safe P m
    → ((a : A) → m ≡ ok a → P a → Safe Q (f a))
    → Safe Q (m >>= f)
Safe-bind (result p) k = k _ refl p
Safe-bind by_system k = by_system
Safe-bind by_runtime k = by_runtime

pub Safe-map {ℓ} :
    {A : Type ℓ} {P Q : A → Type 0} {m : Result A} → Safe P m → ((a : A) → P a → Q a) → Safe Q m
Safe-map (result p) k = result (k _ p)
Safe-map by_system k = by_system
Safe-map by_runtime k = by_runtime

pub Safe-ok {ℓ} : {A : Type ℓ} {P : A → Type 0} {m : Result A} {a : A} → Safe P m → m ≡ ok a → P a
Safe-ok {P} (result p) e = subst P (ok-injective e) p
Safe-ok by_system e = absurd (cc e)
Safe-ok by_runtime e = absurd (cc e)

pub Safe-Gives {ℓ} : {A : Type ℓ} {P : A → Type 0} {m : Result A} → Safe P m → Gives P m
Safe-Gives (result p) = gives p
Safe-Gives by_system = throws
Safe-Gives by_runtime = throws

-- A check that throws has passed.
pub passed {ℓ} :
    {A : Type ℓ} (b : Bool) (failure : Failure) (m : Result A) (a : A)
    → (if not b then err failure else m) ≡ ok a
    → (b ≡ true) × (m ≡ ok a)
passed true failure m a e = (refl, e)
passed false failure m a e = absurd (cc e)
