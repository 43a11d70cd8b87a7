-- ===== src/Processor/Safety.antt =====
-- `processModbusAction` stays inside the buffer and inside the action's own data, holds the mutex
-- around everything else, and reports a failure in the status byte.
mod Loops
mod Reads
mod Writes
use revpi_modbus.Prelude.{
  [], false, ==_iff, ◌*◌, ◌==◌, leb→le, length-take, le→leb, ◌∙◌, length-set, set, true, drop, leb,
  ◌++◌, if◌then◌else◌, ℕ, zero, suc, ◌+◌, ◌≤◌, ◌<◌, ◌≡◌, refl, List, length, ◌∷◌, get_or,
  Bool-cases, inl, inr, get_elem?-eq-get_or, arith,
}
use revpi_modbus.Prelude.Int.{is_nonpos, pos, ltb_ℤ_ℕ, ℤ, is_neg}
use revpi_modbus.Config.{
  report_slave_id, write_multiple_registers, write_multiple_coils, write_single_coil,
  write_single_register, read_input_registers, read_holding_registers, read_discrete_inputs,
  read_coils, max_register_size_per_action, ModbusAction,
}
use revpi_modbus.External.{
  followed_by, get_errno, mutex_unlock, mutex_lock, pi_write, pi_read, modbus_report_slave_id, room,
  pi_get_bit, Call, Env, Event, History, IsDocumented, done, pi_set_bit,
}
use revpi_modbus.External.Reasoning.{Returns-if, Returns-bind, length-fill, Returns}
use revpi_modbus.Processor.{
  error_byte, write_error_message, pause_on_failure, retry_pause, process_modbus_action,
  report_failure, accepts, transfer, modbus_max_pdu_length, send_coil, write_multiple_coils_case,
  bytes_delivered, report_slave_id_case, write_multiple_registers_case, write_single_register_case,
  send_coils, send_registers, read_registers_case, send_register, write_single_coil_case,
  bits_delivered, Transfer, read_bits_case, get_bits, set_bits, coil_byte, coil_bit,
}
use revpi_modbus.Processor.Scope.{start, IsCoil, BelongsTo, Extends, after}
use Loops.{Ensures}
use Reads.{read_bits_case-Ensures, read_registers_case-Ensures, report_slave_id_case-Ensures}
use Writes.{
  write_single_register_case-Ensures, write_multiple_registers_case-Ensures,
  write_single_coil_case-Ensures, write_multiple_coils_case-Ensures,
}

-- What a master's buffer and its action's register count are: the buffer has 256 bytes, and no
-- action has more registers.
pub record Fits (a : ModbusAction) (buf : List ℕ) : Type 0 where
  pub size : length buf ≡ max_register_size_per_action
  pub count : a.register_count ≤ max_register_size_per_action

module _ (env : Env) (doc : IsDocumented env) (a : ModbusAction) (buf : List ℕ) (h : History)
    (f : Fits a buf) where
  open a use {function_code as fc}

  transfer-Ensures : accepts env a ≡ true → Returns (Ensures env doc a buf h) (transfer env a buf h)
  unfolding transfer accepts
  transfer-Ensures ok =
      Returns-if P (fc == read_coils) _ _
        (λ e. read_bits_case-Ensures env doc a _ buf h (ground arith) fits fits (refl, refl))
        λ n₁.
          Returns-if P (fc == read_discrete_inputs) _ _
            (λ e. read_bits_case-Ensures env doc a _ buf h (ground arith) fits fits (refl, refl))
            λ n₂.
              Returns-if P (fc == read_holding_registers) _ _
                (λ e.
                  let few : leb a.register_count env.modbus_max_read_registers ≡ true =
                    ground arith in
                  read_registers_case-Ensures env doc a _ buf h few (read_fits few) (read_fits few)
                    (refl, refl))
                λ n₃.
                  Returns-if P (fc == read_input_registers) _ _
                    (λ e.
                      let few : leb a.register_count env.modbus_max_read_registers ≡ true =
                        ground arith in
                      read_registers_case-Ensures env doc a _ buf h few (read_fits few)
                        (read_fits few) (refl, refl))
                    λ n₄.
                      Returns-if P (fc == write_single_register) _ _
                        (λ e.
                          write_single_register_case-Ensures env doc a buf h (ground arith)
                            (omega (arith, f.size)))
                        λ n₅.
                          Returns-if P (fc == write_single_coil) _ _
                            (λ e.
                              write_single_coil_case-Ensures env doc a buf h (ground arith)
                                (omega (arith, f.size)))
                            λ n₆.
                              Returns-if P (fc == write_multiple_coils) _ _
                                (λ e.
                                  write_multiple_coils_case-Ensures env doc a buf h (ground arith)
                                    fits)
                                λ n₇.
                                  Returns-if P (fc == write_multiple_registers) _ _
                                    (λ e.
                                      let few : leb a.register_count env.modbus_max_write_registers
                                          ≡ true =
                                        ground arith in
                                      write_multiple_registers_case-Ensures env doc a buf h few
                                        (write_fits few))
                                    λ n₈.
                                      Returns-if P (fc == report_slave_id) _ _
                                        (λ e.
                                          report_slave_id_case-Ensures env doc a buf h
                                            (ground arith) f.size)
                                        λ n₉. (refl, start)
    where
      P : Transfer → History → Type 0
      P = Ensures env doc a buf h

      fits : a.register_count ≤ length buf
      fits = omega (arith, f.size, f.count)

      read_fits :
          leb a.register_count env.modbus_max_read_registers ≡ true
          → 2 * a.register_count ≤ length buf
      read_fits few = omega (arith, f.size, doc.read_limit, leb→le _ _ few)

      write_fits :
          leb a.register_count env.modbus_max_write_registers ≡ true
          → 2 * a.register_count ≤ length buf
      write_fits few = omega (arith, f.size, doc.write_limit, leb→le _ _ few)

-- The history after the pause on a failed access to the process image, and after the report of a
-- failed transfer.
abbrev pub paused : Env → ℤ → History → History
paused env successful h = if is_neg successful then followed_by env retry_pause h else h

abbrev pub reported : Env → ModbusAction → ℤ → History → History
reported env a len h =
    if is_neg len
    then followed_by env
        (pi_write a.status_byte_offset 1 (error_byte env (env.answer h get_errno).ret ∷ []))
        (followed_by env get_errno h)
    else h

-- What `processModbusAction` leaves: the buffer has its length; the mutex is locked first and
-- unlocked last; between, only calls that belong to the action are made, then the pause where the
-- process image refused an access, then, exactly where the value returned is negative, one write of
-- the error code to the status byte.
pub record Completed (env : Env) (a : ModbusAction) (buf : List ℕ) (h : History) (r : ℤ × List ℕ)
    (h' : History) : Type 0 where
  pub size : length r.1 ≡ length buf
  pub successful : ℤ
  pub moved : History
  pub own : Extends (BelongsTo a) (followed_by env mutex_lock h) moved
  pub shape : h' ≡ followed_by env mutex_unlock (reported env a r.0 (paused env successful moved))

pause_on_failure-eq :
    (env : Env) (s : ℤ) (h : History) → pause_on_failure env s h ≡ done tt (paused env s h)
unfolding pause_on_failure
pause_on_failure-eq env s h = ground arith

report_failure-eq :
    (env : Env) (a : ModbusAction) (len : ℤ) (h : History)
    → report_failure env a len h ≡ done tt (reported env a len h)
unfolding report_failure write_error_message
report_failure-eq env a len h = ground arith

-- For documented libraries, a 256-byte buffer, an action of at most 256 registers and a register
-- count that the function's assertion accepts, `processModbusAction` ends: no assertion fails, no
-- access leaves the buffer, and the calls made are as `Completed` says.
pub process_modbus_action_lem :
    (env : Env) (a : ModbusAction) (buf : List ℕ) (h : History)
    → IsDocumented env
    → Fits a buf
    → accepts env a ≡ true
    → Returns (Completed env a buf h) (process_modbus_action env a buf h)
unfolding process_modbus_action
process_modbus_action_lem env a buf h doc f ok =
    Returns-bind (Ensures env doc a buf (followed_by env mutex_lock h)) _ (transfer env a buf) _
      (followed_by env mutex_lock h)
      (transfer-Ensures env doc a buf (followed_by env mutex_lock h) f ok)
      λ t m kept.
        rw
          (
            pause_on_failure-eq env t.successful m,
            report_failure-eq env a t.len (paused env t.successful m),
            Returns,
          )
          (record {
            size = kept.0;
            successful = t.successful;
            moved = m;
            own = kept.1;
            shape = refl;
          })
