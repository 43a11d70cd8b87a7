-- ===== src/External/Monad.antt =====
-- Calls, histories, environments, and the monad of a program that makes calls.
use revpi_modbus.Prelude.{
  ℕ, ◌*◌, ◌≤◌, Bool, true, false, none, some, List, ◌∷◌, ◌++◌, leb, ltb, length, get_elem?, set,
  drop, take,
}
use revpi_modbus.Prelude.Int.{ℤ}
use revpi_modbus.Scheduler.{Timespec}

-- An element of `pThreads`: 0, or the thread of that place.
pub data Handle : Type 0 where
  null : Handle
  thread : ℕ → Handle

-- The calls, with the arguments that the program passes. Bytes of a buffer are those passed by the
-- length argument; a libmodbus address is the bit pattern of its `int`. The main programs' threads are
-- known by their place in the array, `alloc` and `free` by what they allocate and release, and the two
-- places of the configuration file by 0 and 1.
pub data Call : Type 0 where
  pi_write : (offset len : ℕ) → List ℕ → Call
  pi_read : (offset len : ℕ) → Call
  pi_get_bit : (address bit : ℕ) → Call
  pi_set_bit : (address bit value : ℕ) → Call
  modbus_read_bits : (addr nb : ℕ) → Call
  modbus_read_input_bits : (addr nb : ℕ) → Call
  modbus_read_registers : (addr nb : ℕ) → Call
  modbus_read_input_registers : (addr nb : ℕ) → Call
  modbus_write_bit : (addr status : ℕ) → Call
  modbus_write_register : (addr value : ℕ) → Call
  modbus_write_bits : (addr nb : ℕ) → List ℕ → Call
  modbus_write_registers : (addr nb : ℕ) → List ℕ → Call
  modbus_report_slave_id : (max_dest : ℕ) → Call
  modbus_set_slave : (slave : ℕ) → Call
  modbus_connect : Call
  modbus_close : Call
  modbus_set_timeout : (sec usec : ℕ) → Call
  modbus_receive : Call
  modbus_get_header_length : Call
  modbus_reply : (len : ℤ) → List ℕ → Call
  modbus_set_socket : (fd : ℕ) → Call
  modbus_listen : (connections : ℕ) → Call
  modbus_mapping_new : (bits input_bits registers input_registers : ℕ) → Call
  modbus_mapping_free : Call
  modbus_new : Call
  modbus_set_error_recovery : Call
  set_priority : Call
  modbus_free : Call
  device_access : Call
  select_fds : (nfds : ℕ) → Call
  accept_fd : (server : ℕ) → Call
  close_fd : (fd : ℕ) → Call
  mutex_lock : Call
  mutex_unlock : Call
  get_errno : Call
  clock_gettime : Call
  sleep_for : Timespec → Call
  sleep_until : Timespec → Call
  pthread_create : (place : ℕ) → Call
  pthread_cancel : Handle → Call
  wait_for_event : Call
  alloc_threads : (count : ℕ) → Call
  free_threads : Call
  free_action : Call
  free_entry : Call
  free_buffer : Call
  open_file : (path : ℕ) → Call
  seek_end : Call
  seek_start : Call
  tell : Call
  alloc_buffer : (size : ℕ) → Call
  read_file : (count : ℕ) → Call
  close_file : Call

-- The value a call returns, the bytes it stores through its pointer argument, and the time that
-- `clock_gettime` stores.
pub record Reply : Type 0 where
  pub ret : ℤ
  pub out : List ℕ
  pub time : Timespec

pub record Event : Type 0 where
  pub call : Call
  pub reply : Reply

abbrev pub History : Type 0
History = List Event

-- The libraries: how they answer, and the constants of their headers.
pub record Env : Type 0 where
  pub answer : History → Call → Reply
  pub modbus_max_read_bits : ℕ
  pub modbus_max_write_bits : ℕ
  pub modbus_max_read_registers : ℕ
  pub modbus_max_write_registers : ℕ
  pub modbus_enobase : ℕ

-- How many bytes a call may store through its pointer argument, by its documentation; for `select`,
-- how many descriptors its set has an answer for.
abbrev pub room : Call → ℕ
room (pi_read offset len) = len
room (pi_get_bit address bit) = 1
room (modbus_read_bits addr nb) = nb
room (modbus_read_input_bits addr nb) = nb
room (modbus_read_registers addr nb) = 2 * nb
room (modbus_read_input_registers addr nb) = 2 * nb
room (modbus_report_slave_id max_dest) = max_dest
room modbus_receive = 260
room (read_file count) = count
room (select_fds nfds) = nfds
room (pthread_create place) = 8
room _ = 0

-- What the program relies on in its libraries: no call stores more than its documentation allows,
-- and a request for registers holds at most 125 to read and 123 to write.
pub record IsDocumented (env : Env) : Type 0 where
  pub fits : (h : History) (c : Call) → length (env.answer h c).out ≤ room c
  pub read_limit : env.modbus_max_read_registers ≤ 125
  pub write_limit : env.modbus_max_write_registers ≤ 123

-- How a function ends: with a value, in a failed assertion, or in an access outside a buffer.
pub data Outcome (A : Type 0) : Type 0 where
  done : A → History → Outcome A
  aborted : History → Outcome A
  overrun : History → Outcome A

abbrev pub M : Type 0 → Type 0
M A = History → Outcome A

abbrev pub pure : {A : Type 0} → A → M A
pure a h = done a h

infixl 5 ◌>>=◌ ◌>>◌
abbrev pub ◌>>=◌ : {A B : Type 0} → M A → (A → M B) → M B
◌>>=◌ m f h = elim (m h) [ done a h' ↦ f a h' | aborted h' ↦ aborted h' | overrun h' ↦ overrun h' ]

abbrev pub ◌>>◌ : {A B : Type 0} → M A → M B → M B
m >> k = m >>= λ _. k

-- `if (b) m else k`, where only the branch taken is run.
abbrev pub branch : {A : Type 0} → Bool → M A → M A → M A
branch b m k h = elim b [ true ↦ m h | false ↦ k h ]

-- `assert(b)`.
abbrev pub assert : Bool → M (Unit {0})
assert true h = done tt h
assert false h = aborted h

-- A byte read from and written to a buffer.
abbrev pub load : List ℕ → ℕ → M ℕ
load buf i h = elim (get_elem? buf i) [ none ↦ overrun h | some v ↦ done v h ]

abbrev pub store : List ℕ → ℕ → ℕ → M (List ℕ)
store buf i v h = elim (ltb i (length buf)) [ true ↦ done (set buf i v) h | false ↦ overrun h ]

-- The first `n` bytes of a buffer, passed to a call.
abbrev pub payload : List ℕ → ℕ → M (List ℕ)
payload buf n h = elim (leb n (length buf)) [ true ↦ done (take n buf) h | false ↦ overrun h ]

-- What a call stores at the start of a buffer.
abbrev pub fill : List ℕ → List ℕ → M (List ℕ)
fill buf out h = elim (leb (length out) (length buf)) [
  | true ↦ done (out ++ drop (length out) buf) h
  | false ↦ overrun h
]

module _ (env : Env) where
  abbrev pub call : Call → M Reply
  call c h = done (env.answer h c) (record { call = c; reply = env.answer h c } ∷ h)

-- One call, as an event after a history, and the history with it.
abbrev pub event : Env → Call → History → Event
event env c h = record { call = c; reply = env.answer h c }

abbrev pub followed_by : Env → Call → History → History
followed_by env c h = event env c h ∷ h

-- A buffer after a call has stored its bytes at the start of it.
abbrev pub filled : List ℕ → Reply → List ℕ
filled buf r = r.out ++ drop (length r.out) buf
