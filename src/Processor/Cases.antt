-- ===== src/Processor/Cases.antt =====
-- The switch of `processModbusAction` in src/ComAndDataProcessor.c: how an action of each function
-- code talks to the slave and to the process image. The master's buffer is an argument and a
-- result, since it keeps its bytes from one action to the next.
use revpi_modbus.Prelude.{
  if◌then◌else◌, ℕ, zero, suc, ◌+◌, ◌-◌, ◌*◌, ◌/◌, ◌%◌, ◌^◌, List, leb, ◌==◌, get_or,
}
use revpi_modbus.Prelude.Int.{ℤ, pos, is_neg, is_nonpos, ltb_ℤ_ℕ}
use revpi_modbus.Config.{
  report_slave_id, write_multiple_registers, write_multiple_coils, write_single_coil,
  write_single_register, read_input_registers, read_holding_registers, read_discrete_inputs,
  read_coils, ModbusAction, max_register_size_per_action,
}
use revpi_modbus.External.{
  branch, done, modbus_read_input_registers, modbus_read_registers, modbus_read_input_bits,
  modbus_read_bits, payload, Env, Call, M, ◌>>=◌, ◌>>◌, pure, call, assert, load, store, fill,
  pi_write, pi_read, pi_get_bit, pi_set_bit, modbus_write_bit, modbus_write_register,
  modbus_write_bits, modbus_write_registers, modbus_report_slave_id,
}

-- `MODBUS_MAX_PDU_LENGTH`.
abbrev pub modbus_max_pdu_length : ℕ
modbus_max_pdu_length = 253

-- `i32uStartRegister - MODBUS_ADDRESS_OFFSET`, in 32 bits.
unfoldable pub wire_address : ModbusAction → ℕ
wire_address a = (a.start_register + 2 ^ 32 - 1) % 2 ^ 32

-- Where the i-th coil of an action lies in the process image.
unfoldable pub coil_byte : ModbusAction → ℕ → ℕ
coil_byte a i = (a.start_byte_process_data + i / 8) % 2 ^ 16

unfoldable pub coil_bit : ModbusAction → ℕ → ℕ
coil_bit a i = (a.start_bit_process_data + i) % 8

-- What a case of the switch leaves in `len`, `successful` and the buffer.
pub record Transfer : Type 0 where
  pub len : ℤ
  pub successful : ℤ
  pub buffer : List ℕ

module _ (env : Env) where
  -- `n` coils from the i-th on, from the buffer into the process image, until one fails.
  unfoldable pub set_bits : ModbusAction → List ℕ → (n i : ℕ) → ℤ → M ℤ
  set_bits a buf zero i successful = pure successful
  set_bits a buf (suc n) i successful = do
    v ← load buf i
    r ← call env (pi_set_bit (coil_byte a i) (coil_bit a i) v)
    branch (is_neg r.ret) (pure r.ret) (set_bits a buf n (i + 1) r.ret)

  -- The same from the process image into the buffer.
  unfoldable pub get_bits : ModbusAction → List ℕ → (n i : ℕ) → ℤ → M (ℤ × List ℕ)
  get_bits a buf zero i successful = pure (successful, buf)
  get_bits a buf (suc n) i successful = do
    r ← call env (pi_get_bit (coil_byte a i) (coil_bit a i))
    branch (is_neg r.ret) (pure (r.ret, buf))
        (store buf i (get_or r.out 0 0) >>= λ buf'. get_bits a buf' n (i + 1) r.ret)

  -- Once the bits are delivered, they go into the process image.
  unfoldable pub bits_delivered : ModbusAction → ℤ → List ℕ → M Transfer
  bits_delivered a len buf = do
    s ← set_bits a buf a.register_count 0 (pos 0)
    pure (record { len = len; successful = s; buffer = buf })

  unfoldable pub read_bits_case : Call → ModbusAction → List ℕ → M Transfer
  read_bits_case read a buf = do
    assert (leb a.register_count env.modbus_max_read_bits)
    r ← call env read
    buf' ← fill buf r.out
    branch (ltb_ℤ_ℕ r.ret a.register_count)
        (pure (record { len = r.ret; successful = pos 0; buffer = buf' }))
        (bits_delivered a r.ret buf')

  -- Once the bytes are delivered, `size` of them go into the process image.
  unfoldable pub bytes_delivered : ModbusAction → (size : ℕ) → ℤ → List ℕ → M Transfer
  bytes_delivered a size len buf = do
    bytes ← payload buf size
    w ← call env (pi_write a.start_byte_process_data size bytes)
    pure (record { len = len; successful = w.ret; buffer = buf })

  unfoldable pub read_registers_case : Call → ModbusAction → List ℕ → M Transfer
  read_registers_case read a buf = do
    assert (leb a.register_count env.modbus_max_read_registers)
    r ← call env read
    buf' ← fill buf r.out
    branch (ltb_ℤ_ℕ r.ret a.register_count)
        (pure (record { len = r.ret; successful = pos 0; buffer = buf' }))
        (bytes_delivered a (a.register_count * 2) r.ret buf')

  unfoldable pub report_slave_id_case : ModbusAction → List ℕ → M Transfer
  report_slave_id_case a buf = do
    assert (leb a.register_count modbus_max_pdu_length)
    r ← call env (modbus_report_slave_id max_register_size_per_action)
    buf' ← fill buf r.out
    branch (ltb_ℤ_ℕ r.ret a.register_count)
        (pure (record { len = r.ret; successful = pos 0; buffer = buf' }))
        (bytes_delivered a a.register_count r.ret buf')

  -- Once the register is read from the process image, it goes to the slave, low byte first in the
  -- buffer.
  unfoldable pub send_register : ModbusAction → ℤ → List ℕ → M Transfer
  send_register a successful buf = do
    lo ← load buf 0
    hi ← load buf 1
    w ← call env (modbus_write_register (wire_address a) (lo + hi * 2 ^ 8))
    pure (record { len = w.ret; successful = successful; buffer = buf })

  unfoldable pub write_single_register_case : ModbusAction → List ℕ → M Transfer
  write_single_register_case a buf = do
    assert (a.register_count == 1)
    p ← call env (pi_read a.start_byte_process_data (a.register_count * 2))
    buf' ← fill buf p.out
    branch (is_nonpos p.ret) (pure (record { len = pos 0; successful = p.ret; buffer = buf' }))
        (send_register a p.ret buf')

  unfoldable pub send_registers : ModbusAction → ℤ → List ℕ → M Transfer
  send_registers a successful buf = do
    bytes ← payload buf (a.register_count * 2)
    w ← call env (modbus_write_registers (wire_address a) a.register_count bytes)
    pure (record { len = w.ret; successful = successful; buffer = buf })

  unfoldable pub write_multiple_registers_case : ModbusAction → List ℕ → M Transfer
  write_multiple_registers_case a buf = do
    assert (leb a.register_count env.modbus_max_write_registers)
    p ← call env (pi_read a.start_byte_process_data (a.register_count * 2))
    buf' ← fill buf p.out
    branch (is_nonpos p.ret) (pure (record { len = pos 0; successful = p.ret; buffer = buf' }))
        (send_registers a p.ret buf')

  -- Once the coils are read from the process image, they go to the slave.
  unfoldable pub send_coil : ModbusAction → ℤ → List ℕ → M Transfer
  send_coil a successful buf = do
    v ← load buf 0
    w ← call env (modbus_write_bit (wire_address a) v)
    pure (record { len = w.ret; successful = successful; buffer = buf })

  unfoldable pub send_coils : ModbusAction → ℤ → List ℕ → M Transfer
  send_coils a successful buf = do
    bits ← payload buf a.register_count
    w ← call env (modbus_write_bits (wire_address a) a.register_count bits)
    pure (record { len = w.ret; successful = successful; buffer = buf })

  unfoldable pub write_single_coil_case : ModbusAction → List ℕ → M Transfer
  write_single_coil_case a buf = do
    assert (a.register_count == 1)
    (s, buf') ← get_bits a buf a.register_count 0 (pos 0)
    branch (is_neg s) (pure (record { len = pos 0; successful = s; buffer = buf' }))
        (send_coil a s buf')

  unfoldable pub write_multiple_coils_case : ModbusAction → List ℕ → M Transfer
  write_multiple_coils_case a buf = do
    assert (leb a.register_count env.modbus_max_write_bits)
    (s, buf') ← get_bits a buf a.register_count 0 (pos 0)
    branch (is_neg s) (pure (record { len = pos 0; successful = s; buffer = buf' }))
        (send_coils a s buf')

  -- The switch of `processModbusAction`. The default case, and eREAD_EXCEPTION_STATUS, only log.
  unfoldable pub transfer : ModbusAction → List ℕ → M Transfer
  transfer a buf h =
      if fc == read_coils
      then read_bits_case (modbus_read_bits (wire_address a) a.register_count) a buf h
      else if fc == read_discrete_inputs
      then read_bits_case (modbus_read_input_bits (wire_address a) a.register_count) a buf h
      else if fc == read_holding_registers
      then read_registers_case (modbus_read_registers (wire_address a) a.register_count) a buf h
      else if fc == read_input_registers
      then read_registers_case (modbus_read_input_registers (wire_address a) a.register_count) a buf
          h
      else if fc == write_single_register
      then write_single_register_case a buf h
      else if fc == write_single_coil
      then write_single_coil_case a buf h
      else if fc == write_multiple_coils
      then write_multiple_coils_case a buf h
      else if fc == write_multiple_registers
      then write_multiple_registers_case a buf h
      else if fc == report_slave_id
      then report_slave_id_case a buf h
      else done (record { len = pos 0; successful = pos 0; buffer = buf }) h
    where
      open a use {function_code as fc}
