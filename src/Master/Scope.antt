-- ===== src/Master/Scope.antt =====
-- The calls that a master's thread may make: those for its device, and those that serve one of its
-- actions.
use revpi_modbus.Prelude.{ℕ, ◌%◌, ◌^◌, ◌≡◌, ◌⊎◌, List, length, Holds}
use revpi_modbus.Config.{ModbusAction}
use revpi_modbus.External.{
  Call, Env, History, M, Outcome, ◌>>=◌, call, event, followed_by, pi_write, pi_get_bit, pi_set_bit,
  modbus_set_slave, modbus_connect, modbus_close, modbus_set_timeout, modbus_new, modbus_free,
  modbus_set_error_recovery, set_priority, device_access, mutex_lock, mutex_unlock, get_errno,
  Reply, clock_gettime, sleep_for, sleep_until,
}
use revpi_modbus.External.Reasoning.{Returns, Returns-bind, Returns-mono}
use revpi_modbus.Processor.Scope.{BelongsTo, Extends, start, after}
use revpi_modbus.Master.{MasterDevice}

-- The calls on a status byte and on the bit that resets it: one byte is written, and the bit is read
-- or cleared.
abbrev pub IsStatus : (reset_byte reset_bit status_byte : ℕ) → Call → Type 0
IsStatus r b s (pi_write offset len bytes) = (offset ≡ s) × (len ≡ 1) × (length bytes ≡ 1)
IsStatus r b s (pi_get_bit address bit) = (address ≡ r % 2 ^ 16) × (bit ≡ b)
IsStatus r b s (pi_set_bit address bit value) = (address ≡ r % 2 ^ 16) × (bit ≡ b) × (value ≡ 0)
IsStatus r b s _ = ⊥

-- The calls for an action: they move its data, concern its status, or choose its slave.
abbrev pub Serves : ModbusAction → Call → Type 0
Serves a c =
    BelongsTo a c
    ⊎ IsStatus a.reset_status_byte_offset a.reset_status_bit_offset a.status_byte_offset c
    ⊎ (c ≡ modbus_set_slave a.slave_address)

-- The calls for the connection, the thread, the lock and the clock, which move no data and leave the
-- context where it is.
abbrev pub IsHousekeeping : Call → Type 0
IsHousekeeping modbus_connect = Unit
IsHousekeeping modbus_close = Unit
IsHousekeeping (modbus_set_timeout sec usec) = Unit
IsHousekeeping modbus_set_error_recovery = Unit
IsHousekeeping set_priority = Unit
IsHousekeeping device_access = Unit
IsHousekeeping mutex_lock = Unit
IsHousekeeping mutex_unlock = Unit
IsHousekeeping get_errno = Unit
IsHousekeeping clock_gettime = Unit
IsHousekeeping (sleep_for t) = Unit
IsHousekeeping (sleep_until t) = Unit
IsHousekeeping _ = ⊥

abbrev pub OfDevice : MasterDevice → Call → Type 0
OfDevice d c = IsStatus d.status_reset_byte 0 d.status_byte c ⊎ IsHousekeeping c

-- The calls that make and release the context.
abbrev pub IsContext : Call → Type 0
IsContext c = (c ≡ modbus_new) ⊎ (c ≡ modbus_free)

-- A call of a master's thread is for its device, concerns its context, or serves one of its actions;
-- which one of several it serves is forgotten.
abbrev pub OfMaster : MasterDevice → List ModbusAction → Call → Type 0
OfMaster d actions c =
    ∥ OfDevice d c ⊎ IsContext c ⊎ ((a : ModbusAction) × Holds a actions × Serves a c) ∥₁

pub Extends-trans :
    {P : Call → Type 0} {h₁ h₂ h₃ : History} → Extends P h₁ h₂ → Extends P h₂ h₃ → Extends P h₁ h₃
Extends-trans e start = e
Extends-trans e (after x p e') = after x p (Extends-trans e e')

pub Extends-mono :
    {P Q : Call → Type 0} {h h' : History}
    → ((c : Call) → P c → Q c)
    → Extends P h h'
    → Extends Q h h'
Extends-mono f start = start
Extends-mono f (after e p x) = after e (f e.call p) (Extends-mono f x)

module _ (P : Call → Type 0) where
  -- A value with a property, after calls that satisfy `P`.
  abbrev pub Confined : {A : Type 0} → (A → Type 0) → History → A → History → Type 0
  Confined Q h a h' = Q a × Extends P h h'

  pub Confined-from :
      {A : Type 0} (Q : A → Type 0) (h h₁ : History) (o : Outcome A)
      → Extends P h h₁
      → Returns (Confined Q h₁) o
      → Returns (Confined Q h) o
  Confined-from Q h h₁ o e r =
      Returns-mono (Confined Q h₁) (Confined Q h) o r λ a h' q. (q.0, Extends-trans e q.1)

  pub Confined-bind :
      {A B : Type 0} (Q : A → Type 0) (R : B → Type 0) (m : M A) (f : A → M B) (h : History)
      → Returns (Confined Q h) (m h)
      → ((a : A) (h' : History) → Q a → Returns (Confined R h') (f a h'))
      → Returns (Confined R h) ((m >>= f) h)
  Confined-bind Q R m f h r k =
      Returns-bind (Confined Q h) (Confined R h) m f h r
        λ a h' q. Confined-from R h h' (f a h') q.1 (k a h' q.0)

  pub Confined-call :
      {B : Type 0} (env : Env) (R : B → Type 0) (c : Call) (f : Reply → M B) (h : History)
      → P c
      → Returns (Confined R (followed_by env c h)) (f (env.answer h c) (followed_by env c h))
      → Returns (Confined R h) ((call env c >>= f) h)
  Confined-call env R c f h p r =
      Confined-from R h (followed_by env c h) (f (env.answer h c) (followed_by env c h))
        (after (event env c h) p start) r
