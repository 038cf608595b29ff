-- ===== src/Lib.antt =====
-- Halo Keyboard: a verification library for the handler of the Yoga Book's touch keyboard.
--
-- The program reads one touch sensor and offers two virtual input devices, a keyboard and a
-- touchpad, each served by a process of its own. In each process an MtStateMachine turns the raw
-- events of the sensor into slots and, at the end of a frame, into fingers. FakeKeyboard maps
-- fingers to keys, delays their key-downs in a queue of pending events, rejects fingers that move,
-- press too hard or too softly, and writes key events to its uinput device; it asks TouchFFManager
-- for a vibration when a finger lands on a key. FakeTouchpad copies the slots that lie in its
-- region of the sensor to its own uinput device, with coordinates turned and shifted, and reports
-- the number of contacts as buttons.
--
-- Which file models what (paths from the root of the repository):
--   Prelude     shared types, tests, lists, signed integers and maps, with their lemmas
--   Input       the input events and codes of the kernel that the program names
--   System      include/halo_keyboard/syscall_handler.h: system calls as a trace, newest first,
--               and the system as a function from the trace and the call to a reply; exceptions as
--               results
--   Multitouch  src/multitouch/*.cc and include/halo_keyboard/multitouch/*.h. EventKey, Slot and
--               StateMachine hold the definitions (AddEvent is add_event, FillSnapshot
--               fill_snapshot); Validity, Frames and Snapshots the theorems
--   Uinput      src/uinput_device.cc: SendEvent is send_event, Device holds the other methods;
--               Writes says how a computation that writes events can end, Axes what is configured
--               on the device, Requests and Calls which calls the set-up makes, Life what becomes
--               of the descriptor
--   Evdev       src/evdev_source.cc: the methods of EvdevSource; Polling holds the theorem
--   Haptics     src/haptics/*.cc: Driver is FFDriver, Manager is TouchFFManager; Upload holds what
--               takes magnitudes, with the constructor of TouchFFManager; Playing holds the
--               theorems
--   Floating    what the code asks of double and float; Whole is an instance on whole numbers
--   Csv         what io::CSVReader gives to its users
--   Hardware    src/hardware_config.cc: Validate and LoadHardwareConfig; Loading holds the theorem,
--               Scale the pitch of a measured sensor
--   Options     src/options.cc: ParseOptions; Parsing holds the theorems
--   Keyboard    src/fake_keyboard.cc and include/halo_keyboard/fake_keyboard.h. Key, Time, Queue
--               and State hold the data; Fingers is ProcessIncomingSnapshot and what it calls;
--               Consume is one round of the loop of that name (round), its inner loop
--               (fire_pending) and its timeout (timeout_ms); Loop joins the round with the poll of
--               the sensor and the clock (consume_once); Layout is the constructor with LoadLayout,
--               Setup is EnableKeyboardEvents and Run. Deadlines and Ordering are about time
--               and the queue; Tracking, Preservation, Touches, Freshness, Balance and
--               Soundness about the invariant; Departures, Frames, Firing and Rounds about what
--               keeps it; Runs and Progress about what a run reaches; Layouts and Geometry
--               about the layout file; Codes, Coded, Sending, Typing and Sessions about the
--               codes that are enabled and sent
--   Touchpad    src/fake_touchpad.cc: Region is the region and its coordinates, Sync the sync of
--               the slots, the buttons and a round of Consume, Loop the round with the poll, Layout
--               the constructor with LoadLayout, Setup what Run does before Consume. Kernel is what
--               the virtual device shows after the events written to it; Passing, Slots, Syncing,
--               Buttons and Drawing are about that, Geometry about the region, Reading, Plain and
--               Showing about another MtStateMachine that reads the virtual device, Sessions about a run
--               from the set-up on
--   Supervisor  src/main.cc: Processes is the kernel as main sees it, Workers holds Supervise and
--               what it calls, Main the function main, Children the bodies of the two workers up
--               to the loops of Consume; Waiting, Reaping, Signals and Killing are about
--               processes, Typing and Showing about the workers from their start on
--
-- How the state corresponds to the code. Each class is a record of its fields with the field names
-- of the code, without the trailing underscore; the descriptor of the uinput device and the trace
-- of system calls stand in the same record. A method is a function from the state to the new
-- state, in Result where it can throw; `undefined` stands for undefined behaviour such as an
-- unchecked index out of range or FD_SET of a descriptor that is negative or at least FD_SETSIZE.
-- std::unordered_map is a list of entries with distinct keys, and its order of iteration is that of
-- the list. A statement about an iteration that starts from any list holds for every order; for the
-- axes of the touchpad's slots, a run may also change the order between any two rounds (reordered in
-- Loop). A round of the keyboard makes its snapshot in the order of the slots, and a run from its
-- constructor keeps the fingers in the order of insertion; that ProcessIncomingSnapshot keeps
-- the invariant is shown for every order of both (Frames).
-- std::list and std::vector are lists. An int is a signed integer with no wrap-around, since signed
-- overflow is undefined, but for the timeout of Consume: there a long is narrowed to the 32 bits of
-- an int (narrow), and the increment of the largest int is `undefined`. The 16-bit fields of an
-- event are cut with % 2 ^ 16.
--
-- Loops and fuel. The loop of AddMsToTimespec runs on as much fuel as there are whole seconds in
-- the nanoseconds, and takes one off in each round. The loop over pending events runs on the
-- length of the queue, and each round takes an event off at least. A call of waitpid is repeated
-- while it is interrupted, on fuel, and n + 1 is enough for n interruptions in a row. The endless
-- loops of Consume are modelled by one round of each, consume_once, and the relation Loop of the
-- states that rounds reach, with any answers of the system and any times of the clock. The relation
-- Run of the keyboard is the same for given results of the poll. The rows of a layout file are read
-- by recursion on the file.
--
-- What is trusted. The operating system is a parameter, and a write may fail at any time. That the
-- supervisor ends rests on a bound on the interruptions of a call (IsPatient). The keyboard's
-- theorems ask of the sensor that a frame reports no finger under the id -999 of kOldTID and no
-- new finger under the id of one whose last event is still pending (CanReport). Where the timeout
-- matters, the time is normal and less than 23 days from the first deadline (IsNear), since 2 ^ 31
-- milliseconds are more than 24 days; and FD_SET takes the sensor's descriptor (is_in_set).
--
-- Floating-point numbers have no counterpart here. What the code asks of them is a parameter: the
-- record Floating has the tests, the record Arithmetic the operations of the layouts, and
-- std::from_chars is the parameter Numbers. Where the order of numbers matters, a theorem asks for
-- what IEEE 754 says of it (IsMonotone) and for a sensor whose sizes are finite and whose pitch is
-- finite and positive (IsMeasured); whole numbers meet both. A conversion to int of a number that
-- does not fit is undefined.
--
-- What is not modelled: the CSV reader, which is a library and whose rows are a parameter (Csv);
-- logging and the output of PrintUsage; the one-line forwards of DefaultSyscallHandler. The body of a
-- worker and the supervision of its process are two models: how a process ends follows from the
-- exception by worker_status.
pub mod Options
pub mod Prelude
pub mod Input
pub mod System
pub mod Multitouch
pub mod Uinput
pub mod Evdev
pub mod Csv
pub mod Floating
pub mod Haptics
pub mod Keyboard
pub mod Hardware
pub mod Touchpad
pub mod Supervisor
