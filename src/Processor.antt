-- ===== src/Processor.antt =====
-- src/ComAndDataProcessor.c: one action is sent over the bus, its data is moved from or into the
-- process image, and a failure is written to the action's status byte.
mod Cases
pub mod Scope
pub mod Safety
pub mod Registers
pub mod Bits
pub mod Coils
pub mod Status
pub use Cases.{Transfer, modbus_max_pdu_length}
unfoldable pub use Cases.{
  wire_address, bits_delivered, bytes_delivered, send_register, send_registers, send_coil,
  send_coils, coil_byte, coil_bit, set_bits, get_bits, read_bits_case, read_registers_case,
  report_slave_id_case, write_single_register_case, write_multiple_registers_case,
  write_single_coil_case, write_multiple_coils_case, transfer,
}
use revpi_modbus.Prelude.{
  Bool, ltb, [], if◌then◌else◌, ◌∷◌, ◌||◌, ℕ, zero, suc, ◌+◌, ◌-◌, ◌*◌, ◌/◌, ◌%◌, ◌^◌, true, false,
  List, leb, ◌==◌, get_or, take,
}
use revpi_modbus.Prelude.Int.{to_uint32, ℤ, pos, is_neg, is_nonpos, ltb_ℤ_ℕ}
use revpi_modbus.Config.{
  report_slave_id, write_multiple_registers, write_multiple_coils, write_single_coil,
  write_single_register, read_input_registers, read_holding_registers, read_discrete_inputs,
  read_coils, ModbusAction, max_register_size_per_action,
}
use revpi_modbus.External.{
  branch, modbus_read_registers, modbus_read_input_bits, modbus_read_bits, mutex_unlock, payload,
  get_errno, mutex_lock, Env, Call, M, ◌>>=◌, ◌>>◌, pure, call, assert, load, store, fill, pi_write,
  pi_read, pi_get_bit, pi_set_bit, modbus_write_bit, modbus_write_register, modbus_write_bits,
  modbus_write_registers, modbus_report_slave_id, sleep_for,
}

-- The 100 milliseconds that the code waits after a failed access to the process image.
abbrev pub retry_pause : Call
retry_pause = sleep_for (record { tv_sec = 0; tv_nsec = 100 * 1000 * 1000 })

module _ (env : Env) where
  unfoldable pub write_error_message : (status_byte_offset error_code : ℕ) → M ℤ
  write_error_message status_byte_offset error_code = do
    w ← call env (pi_write status_byte_offset 1 (error_code ∷ []))
    pure w.ret

  -- The byte for the process image: a libmodbus error without its base, cut to eight bits.
  abbrev pub error_byte : ℤ → ℕ
  error_byte errno =
      let err = to_uint32 errno in
      (if ltb env.modbus_enobase err then err - env.modbus_enobase else err) % 2 ^ 8

  -- The wait after a failed access to the process image.
  unfoldable pub pause_on_failure : ℤ → M (Unit {0})
  pause_on_failure successful =
      branch (is_neg successful) (call env retry_pause >> pure tt) (pure tt)

  -- A failed transfer is reported in the action's status byte.
  unfoldable pub report_failure : ModbusAction → ℤ → M (Unit {0})
  report_failure a len = branch (is_neg len) report (pure tt)
    where
      report : M (Unit {0})
      report = do
        e ← call env get_errno
        write_error_message a.status_byte_offset (error_byte e.ret)
        pure tt

  -- The value returned, and the buffer.
  unfoldable pub process_modbus_action : ModbusAction → List ℕ → M (ℤ × List ℕ)
  process_modbus_action a buf = do
    call env mutex_lock
    t ← transfer env a buf
    pause_on_failure t.successful
    report_failure a t.len
    call env mutex_unlock
    pure (t.len, t.buffer)

  -- The status byte is cleared, and then the reset bit, where the reset bit is set.
  unfoldable pub reset_modbus_action_status : (reset_byte reset_bit status_byte : ℕ) → M ℤ
  reset_modbus_action_status reset_byte reset_bit status_byte = do
    r ← call env (pi_get_bit (reset_byte % 2 ^ 16) reset_bit)
    branch (is_neg r.ret || get_or r.out 0 0 == 0) (pure r.ret) (
        call env (pi_write status_byte 1 (0 ∷ [])) >>= λ w.
        branch (is_neg w.ret) (pure w.ret)
          (call env (pi_set_bit (reset_byte % 2 ^ 16) reset_bit 0) >>= λ s. pure s.ret))

  unfoldable pub reset_modbus_master_status : (reset_byte status_byte : ℕ) → M ℤ
  reset_modbus_master_status reset_byte status_byte =
      reset_modbus_action_status reset_byte 0 status_byte

-- The assertion that `processModbusAction` makes about an action, by its function code.
unfoldable pub accepts : Env → ModbusAction → Bool
accepts env a =
    if fc == read_coils || fc == read_discrete_inputs
    then leb a.register_count env.modbus_max_read_bits
    else if fc == read_holding_registers || fc == read_input_registers
    then leb a.register_count env.modbus_max_read_registers
    else if fc == write_single_register || fc == write_single_coil
    then a.register_count == 1
    else if fc == write_multiple_coils
    then leb a.register_count env.modbus_max_write_bits
    else if fc == write_multiple_registers
    then leb a.register_count env.modbus_max_write_registers
    else if fc == report_slave_id
    then leb a.register_count modbus_max_pdu_length
    else true
  where
    open a use {function_code as fc}
