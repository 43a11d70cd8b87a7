-- ===== src/Slave.antt =====
-- src/ModbusSlaveThread.c and src/piProcessImageAccess.c: a slave answers the requests of its
-- masters from a mapping of coils and registers, which is moved from and into the process image.

pub mod Access
pub mod Areas
pub mod Image
pub mod Request
pub mod Tcp
pub mod Threads
pub mod Resources
pub mod Released
pub mod Served
use revpi_modbus.Prelude.{◌*◌, ◌/◌, ℕ, ◌==◌, ◌||◌, Bool, List, ltb}
use revpi_modbus.Prelude.Int.{is_minus_one, is_nonpos, ℤ, pos, negsuc}
use revpi_modbus.Config.{
  ProcessImageConfiguration, read_input_registers, read_discrete_inputs, write_multiple_coils,
  write_multiple_registers, write_single_coil, write_single_register, write_and_read_registers,
  write_mask_register,
}
use revpi_modbus.External.{
  modbus_free, modbus_close, ◌>>◌, modbus_mapping_free, followed_by, History, Env, M, ◌>>=◌, pure,
  call, branch, load, fill, overrun, modbus_receive, modbus_get_header_length, modbus_reply,
  pi_write, pi_read, payload,
}

-- The `modbus_mapping_t` of libmodbus. Registers are in the bytes that they have in memory.
pub record Mapping : Type 0 where
  pub nb_bits : ℕ
  pub nb_registers : ℕ
  pub nb_input_bits : ℕ
  pub nb_input_registers : ℕ
  pub tab_bits : List ℕ
  pub tab_registers : List ℕ
  pub tab_input_bits : List ℕ
  pub tab_input_registers : List ℕ

module _ (env : Env) where
  -- One access of an area: `size` bytes at `offset`, unless the area is empty.
  unfoldable pub write_registers_area : Mapping → ProcessImageConfiguration → ℤ → M ℤ
  write_registers_area m c successful =
      branch (ltb 0 m.nb_registers)
        (payload m.tab_registers (m.nb_registers * 2) >>= λ bytes.
          call env (pi_write c.holding_registers_input_offset (m.nb_registers * 2) bytes) >>= λ r.
          pure r.ret)
        (pure successful)

  -- The coils are written first, as one byte for each eight of them.
  unfoldable pub write_modbus_data_to_process_image : Mapping → ProcessImageConfiguration → M ℤ
  write_modbus_data_to_process_image m c =
      branch (ltb 0 m.nb_bits)
        (payload m.tab_bits (m.nb_bits / 8) >>= λ bytes.
          call env (pi_write c.coils_input_offset (m.nb_bits / 8) bytes) >>= λ r.
          branch (is_nonpos r.ret) (pure r.ret) (write_registers_area m c r.ret))
        (write_registers_area m c (pos 0))

  unfoldable pub read_input_registers_area :
      Mapping → ProcessImageConfiguration → ℤ → M (ℤ × Mapping)
  read_input_registers_area m c successful =
      branch (ltb 0 m.nb_input_registers)
        (call env (pi_read c.input_registers_offset (m.nb_input_registers * 2)) >>= λ r.
          fill m.tab_input_registers r.out >>= λ bytes.
          pure (r.ret, record m { tab_input_registers = bytes }))
        (pure (successful, m))

  -- The discrete inputs are read first.
  unfoldable pub read_modbus_data_from_process_image :
      Mapping → ProcessImageConfiguration → M (ℤ × Mapping)
  read_modbus_data_from_process_image m c =
      branch (ltb 0 m.nb_input_bits)
        (call env (pi_read c.discrete_inputs_offset (m.nb_input_bits / 8)) >>= λ r.
          fill m.tab_input_bits r.out >>= λ bytes.
          branch (is_nonpos r.ret) (pure (r.ret, record m { tab_input_bits = bytes }))
            (read_input_registers_area (record m { tab_input_bits = bytes }) c r.ret))
        (read_input_registers_area m c (pos 0))

-- The function codes that need the process image's data, and those that change the mapping.
abbrev pub reads_inputs : ℕ → Bool
reads_inputs fc = fc == read_input_registers || fc == read_discrete_inputs

abbrev pub writes_outputs : ℕ → Bool
writes_outputs fc =
    fc == write_multiple_coils
    || fc == write_multiple_registers
    || fc == write_single_coil
    || fc == write_single_register
    || fc == write_and_read_registers
    || fc == write_mask_register

-- `MODBUS_TCP_MAX_ADU_LENGTH` of libmodbus.
abbrev pub modbus_tcp_max_adu_length : ℕ
modbus_tcp_max_adu_length = 260

-- A byte of a buffer at an `int` index.
abbrev pub load_at : List ℕ → ℤ → M ℕ
load_at buf (pos i) h = load buf i h
load_at buf (negsuc i) h = overrun h

module _ (env : Env) where
  -- The inputs of the mapping are brought up to date where a request reads them.
  unfoldable pub refresh : ℕ → Mapping → ProcessImageConfiguration → M Mapping
  refresh fc m c =
      branch (reads_inputs fc) (read_modbus_data_from_process_image env m c >>= λ r. pure r.1)
        (pure m)

  -- What a write request put into the mapping goes into the process image.
  unfoldable pub replied : ℕ → ℤ → Mapping → ProcessImageConfiguration → M (ℤ × Mapping)
  replied fc ret m c = branch (is_minus_one ret) (pure (negsuc 0, m)) (
      branch (writes_outputs fc)
        (write_modbus_data_to_process_image env m c >>= λ s. pure (pos 0, m)) (pure (pos 0, m)))

-- How libmodbus changes the mapping when it answers a request.
abbrev pub Serve : Type 0
Serve = History → List ℕ → Mapping → Mapping

module _ (env : Env) (serve : Serve) where
  -- The request is answered.
  unfoldable pub reply_to : ℕ → ℤ → List ℕ → Mapping → ProcessImageConfiguration → M (ℤ × Mapping)
  reply_to fc len req m c h =
      replied env fc (env.answer h (modbus_reply len req)).ret (serve h req m) c
        (followed_by env (modbus_reply len req) h)

  -- `process_modbus_request`, with the mapping passed on. The request buffer is as on entry where
  -- nothing is received into it; its contents then are not read.
  unfoldable pub process_modbus_request :
      List ℕ → Mapping → ProcessImageConfiguration → M (ℤ × Mapping)
  process_modbus_request buf m c = call env modbus_receive >>= λ r. fill buf r.out >>= λ req.
      branch (is_nonpos r.ret) (branch (is_minus_one r.ret) (pure (negsuc 0, m)) (pure (pos 0, m)))
        (call env modbus_get_header_length >>= λ l.
          load_at req l.ret >>= λ fc. refresh env fc m c >>= λ m'. reply_to fc r.ret req m' c)

module _ (env : Env) where
  -- What the cleanup handlers of both threads begin with: they release what is there.
  unfoldable pub release_slave : (mapping context : Bool) → M (Unit {0})
  release_slave mapping context =
      branch mapping (call env modbus_mapping_free >> pure tt) (pure tt)
      >> branch context (call env modbus_close >> (call env modbus_free >> pure tt)) (pure tt)
