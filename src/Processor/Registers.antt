-- ===== src/Processor/Registers.antt =====
-- What register actions move: between the slave's registers and the bytes of the process image.
use revpi_modbus.Prelude.{
  get_elem?-eq-get_or, ◌∙◌, ◌^◌, ◌+◌, get_or, false, ℕ, ◌*◌, ◌≤◌, ◌≡◌, ◌⊎◌, inl, inr, List, length,
  take, if◌then◌else◌, true, leb, leb→le, arith,
}
use revpi_modbus.Prelude.Int.{is_nonpos, pos, ltb_ℤ_ℕ}
use revpi_modbus.Config.{
  write_multiple_registers, write_single_register, ModbusAction, read_holding_registers,
  read_input_registers,
}
use revpi_modbus.External.{
  ◌>>=◌, aborted, mutex_lock, modbus_write_register, modbus_write_registers, pi_read, Env, Call,
  History, IsDocumented, done, followed_by, filled, pi_write, modbus_read_registers,
  modbus_read_input_registers,
}
use revpi_modbus.External.Reasoning.{length-fill}
use revpi_modbus.Processor.{
  write_multiple_coils_case, write_single_coil_case, report_slave_id_case, read_bits_case,
  send_register, send_registers, write_single_register_case, write_multiple_registers_case,
  process_modbus_action, transfer, accepts, wire_address, read_registers_case, bytes_delivered,
}
use revpi_modbus.Processor.Safety.{Fits}

-- The libmodbus call of an action that reads registers.
abbrev pub RegisterRead : ModbusAction → Call → Type 0
RegisterRead a read =
    ((a.function_code ≡ read_holding_registers)
      × (read ≡ modbus_read_registers (wire_address a) a.register_count))
    ⊎ ((a.function_code ≡ read_input_registers)
        × (read ≡ modbus_read_input_registers (wire_address a) a.register_count))

module _ (env : Env) (a : ModbusAction) (buf : List ℕ) (h : History) (doc : IsDocumented env)
    (f : Fits a buf) (ok : accepts env a ≡ true) where
  read_registers_case-eq :
      (read : Call)
      → leb a.register_count env.modbus_max_read_registers ≡ true
      → (length (env.answer h read).out ≤ 2 * a.register_count)
      → let r = env.answer h read in
        let buf' = filled buf r in
        let write =
          pi_write a.start_byte_process_data
            (a.register_count * 2)
            (take (a.register_count * 2) buf') in
        read_registers_case env read a buf h ≡ (
          if ltb_ℤ_ℕ r.ret a.register_count
          then done
              (record { len = r.ret; successful = pos 0; buffer = buf' })
              (followed_by env read h)
          else done
              (record {
                len = r.ret;
                successful = (env.answer (followed_by env read h) write).ret;
                buffer = buf';
              })
              (followed_by env write (followed_by env read h)))
  unfolding read_registers_case bytes_delivered
  read_registers_case-eq read few fits =
      let n : a.register_count ≤ 125 = omega (arith, leb→le _ _ few, doc.read_limit) in
      let le : length (env.answer h read).out ≤ length buf = omega (arith, f.size) in
      let room : a.register_count * 2 ≤ length (filled buf (env.answer h read)) =
        omega (arith, length-fill buf (env.answer h read).out le, f.size) in
      ground arith

  read_accepted :
      (a.function_code ≡ read_holding_registers) ⊎ (a.function_code ≡ read_input_registers)
      → leb a.register_count env.modbus_max_read_registers ≡ true
  unfolding accepts
  read_accepted fc = ground arith

  transfer-holding :
      a.function_code ≡ read_holding_registers
      → transfer env a buf h
        ≡ read_registers_case env (modbus_read_registers (wire_address a) a.register_count) a buf h
  unfolding transfer
  transfer-holding fc = ground arith

  transfer-input :
      a.function_code ≡ read_input_registers
      → transfer env a buf h
        ≡ read_registers_case env
            (modbus_read_input_registers (wire_address a) a.register_count)
            a
            buf
            h
  unfolding transfer
  transfer-input fc = ground arith

  -- An action that reads registers asks the slave for its registers once. If the slave delivers
  -- fewer than asked for, the process image is not touched; otherwise the bytes received, two for
  -- each register, are written at the action's start byte in one call.
  pub read_registers_lem :
      (read : Call)
      → RegisterRead a read
      → let r = env.answer h read in
        let buf' = filled buf r in
        let write =
          pi_write a.start_byte_process_data
            (a.register_count * 2)
            (take (a.register_count * 2) buf') in
        transfer env a buf h ≡ (
          if ltb_ℤ_ℕ r.ret a.register_count
          then done
              (record { len = r.ret; successful = pos 0; buffer = buf' })
              (followed_by env read h)
          else done
              (record {
                len = r.ret;
                successful = (env.answer (followed_by env read h) write).ret;
                buffer = buf';
              })
              (followed_by env write (followed_by env read h)))
  read_registers_lem read (inl (fc, c)) =
      let few : leb a.register_count env.modbus_max_read_registers ≡ true =
        read_accepted (inl fc) in
      rw (transfer-holding fc, c)
        (read_registers_case-eq (modbus_read_registers (wire_address a) a.register_count) few
          (doc.fits h _))
  read_registers_lem read (inr (fc, c)) =
      let few : leb a.register_count env.modbus_max_read_registers ≡ true =
        read_accepted (inr fc) in
      rw (transfer-input fc, c)
        (read_registers_case-eq (modbus_read_input_registers (wire_address a) a.register_count) few
          (doc.fits h _))

  -- An action that writes several registers asks the process image for their bytes at its start byte.
  -- If that fails or delivers nothing, nothing is sent; otherwise what is delivered stands at the
  -- start of the buffer, and as many bytes of the buffer as the registers have go to the slave in one
  -- call, whose result is the action's: where fewer are delivered, those behind them are what the
  -- buffer held before.
  pub write_registers_lem :
      a.function_code ≡ write_multiple_registers
      → let read = pi_read a.start_byte_process_data (a.register_count * 2) in
        let p = env.answer h read in
        let buf' = filled buf p in
        let write =
          modbus_write_registers
            (wire_address a)
            a.register_count
            (take (a.register_count * 2) buf') in
        transfer env a buf h ≡ (
          if is_nonpos p.ret
          then done
              (record { len = pos 0; successful = p.ret; buffer = buf' })
              (followed_by env read h)
          else done
              (record {
                len = (env.answer (followed_by env read h) write).ret;
                successful = p.ret;
                buffer = buf';
              })
              (followed_by env write (followed_by env read h)))
  unfolding transfer accepts write_multiple_registers_case send_registers
  write_registers_lem fc =
      let read = pi_read a.start_byte_process_data (a.register_count * 2) in
      let few : leb a.register_count env.modbus_max_write_registers ≡ true = ground arith in
      let n : a.register_count ≤ 123 = omega (arith, leb→le _ _ few, doc.write_limit) in
      let fits = doc.fits h read in
      let le : length (env.answer h read).out ≤ length buf = omega (arith, f.size) in
      let room : a.register_count * 2 ≤ length (filled buf (env.answer h read)) =
        omega (arith, length-fill buf (env.answer h read).out le, f.size) in
      ground arith

  -- An action that writes one register asks the process image for its two bytes. If that fails or
  -- delivers nothing, nothing is sent; otherwise what is delivered stands at the start of the buffer,
  -- and the value sent is that of the buffer's first two bytes, low byte first: where only one byte
  -- is delivered, the high byte is what the buffer held before.
  pub write_register_lem :
      a.function_code ≡ write_single_register
      → let read = pi_read a.start_byte_process_data 2 in
        let p = env.answer h read in
        let buf' = filled buf p in
        let write =
          modbus_write_register (wire_address a) (get_or buf' 0 0 + get_or buf' 1 0 * 2 ^ 8) in
        transfer env a buf h ≡ (
          if is_nonpos p.ret
          then done
              (record { len = pos 0; successful = p.ret; buffer = buf' })
              (followed_by env read h)
          else done
              (record {
                len = (env.answer (followed_by env read h) write).ret;
                successful = p.ret;
                buffer = buf';
              })
              (followed_by env write (followed_by env read h)))
  unfolding transfer accepts write_single_register_case send_register
  write_register_lem fc =
      let read = pi_read a.start_byte_process_data 2 in
      let one : a.register_count ≡ 1 = ground arith in
      let two : a.register_count * 2 ≡ 2 = omega arith in
      let fits = doc.fits h read in
      let le : length (env.answer h read).out ≤ length buf = omega (arith, f.size) in
      let size : length (filled buf (env.answer h read)) ≡ 256 =
        length-fill buf (env.answer h read).out le ∙ f.size in
      ground (
        arith,
        get_elem?-eq-get_or (filled buf (env.answer h read)) 0 0,
        get_elem?-eq-get_or (filled buf (env.answer h read)) 1 0,
      )

transfer_aborts :
    (env : Env) (a : ModbusAction) (buf : List ℕ) (h : History)
    → accepts env a ≡ false
    → transfer env a buf h ≡ aborted h
unfolding accepts transfer read_bits_case read_registers_case report_slave_id_case
    write_single_register_case write_multiple_registers_case write_single_coil_case
    write_multiple_coils_case
transfer_aborts env a buf h no_fit = ground arith

-- Where the assertion about the register count fails, `processModbusAction` makes no call but that
-- to lock the mutex, and the process ends with the mutex held.
pub process_modbus_action_aborts :
    (env : Env) (a : ModbusAction) (buf : List ℕ) (h : History)
    → accepts env a ≡ false
    → process_modbus_action env a buf h ≡ aborted (followed_by env mutex_lock h)
unfolding process_modbus_action
process_modbus_action_aborts env a buf h no_fit =
    rw (transfer_aborts env a buf (followed_by env mutex_lock h) no_fit, ◌>>=◌)
