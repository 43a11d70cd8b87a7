-- ===== src/Processor/Scope.antt =====
-- What an action may touch: the calls that belong to it, and the histories that only such calls
-- extend.
use revpi_modbus.Prelude.{ℕ, ◌*◌, ◌≤◌, ◌<◌, ◌≡◌, length, ◌∷◌}
use revpi_modbus.Config.{ModbusAction, max_register_size_per_action}
use revpi_modbus.External.{
  Call, Event, History, pi_write, pi_read, pi_get_bit, pi_set_bit, modbus_read_bits,
  modbus_read_input_bits, modbus_read_registers, modbus_read_input_registers, modbus_write_bit,
  modbus_write_register, modbus_write_bits, modbus_write_registers, modbus_report_slave_id,
}
use revpi_modbus.Processor.{wire_address, coil_byte, coil_bit}

-- The position of one of the action's coils in the process image.
pub record IsCoil (a : ModbusAction) (address bit : ℕ) : Type 0 where
  pub index : ℕ
  pub in_range : index < a.register_count
  pub at_byte : address ≡ coil_byte a index
  pub at_bit : bit ≡ coil_bit a index

-- A call belongs to an action if it moves the action's own data: its bytes of the process image
-- from the start byte on, at most two for each register, or one of its coils; or its registers of
-- the slave, from the register before the configured one-based start on, with a buffer of the
-- length that goes with the number of registers.
abbrev pub BelongsTo : ModbusAction → Call → Type 0
BelongsTo a (pi_write offset len bytes) =
    (offset ≡ a.start_byte_process_data) × (len ≤ 2 * a.register_count) × (length bytes ≡ len)
BelongsTo a (pi_read offset len) =
    (offset ≡ a.start_byte_process_data) × (len ≡ 2 * a.register_count)
BelongsTo a (pi_get_bit address bit) = IsCoil a address bit
BelongsTo a (pi_set_bit address bit value) = IsCoil a address bit
BelongsTo a (modbus_read_bits addr nb) = (addr ≡ wire_address a) × (nb ≡ a.register_count)
BelongsTo a (modbus_read_input_bits addr nb) = (addr ≡ wire_address a) × (nb ≡ a.register_count)
BelongsTo a (modbus_read_registers addr nb) = (addr ≡ wire_address a) × (nb ≡ a.register_count)
BelongsTo a (modbus_read_input_registers addr nb) =
    (addr ≡ wire_address a) × (nb ≡ a.register_count)
BelongsTo a (modbus_write_bit addr status) = addr ≡ wire_address a
BelongsTo a (modbus_write_register addr value) = addr ≡ wire_address a
BelongsTo a (modbus_write_bits addr nb bits) =
    (addr ≡ wire_address a) × (nb ≡ a.register_count) × (length bits ≡ nb)
BelongsTo a (modbus_write_registers addr nb bytes) =
    (addr ≡ wire_address a) × (nb ≡ a.register_count) × (length bytes ≡ 2 * nb)
BelongsTo a (modbus_report_slave_id max_dest) = max_dest ≡ max_register_size_per_action
BelongsTo a _ = ⊥

-- The second history extends the first by calls that satisfy `P`.
pub data Extends (P : Call → Type 0) (h : History) : History → Type 0 where
  start : Extends P h h
  after : {h' : History} (e : Event) → P e.call → Extends P h h' → Extends P h (e ∷ h')
