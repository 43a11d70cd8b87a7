-- ===== src/Processor/Safety/Reads.antt =====
-- The cases that read from the slave.
use revpi_modbus.Prelude.{
  ◌*◌, leb→le, true, leb, ℕ, ◌≤◌, ◌≡◌, refl, List, length, ◌∷◌, Bool-cases, inl, inr, arith,
}
use revpi_modbus.Prelude.Int.{ltb_ℤ_ℕ}
use revpi_modbus.Config.{max_register_size_per_action, ModbusAction}
use revpi_modbus.External.{
  event, filled, modbus_report_slave_id, room, Call, Env, History, IsDocumented,
}
use revpi_modbus.External.Reasoning.{Returns}
use revpi_modbus.Processor.{
  modbus_max_pdu_length, report_slave_id_case, read_registers_case, read_bits_case,
}
use revpi_modbus.Processor.Scope.{BelongsTo}
use revpi_modbus.Processor.Safety.Loops.{
  Ensures, filled-Kept, filled-eq, bits_delivered-Own, bytes_delivered-Own,
}

module _ (env : Env) (doc : IsDocumented env) (a : ModbusAction) where
  pub read_bits_case-Ensures :
      (read : Call) (buf : List ℕ) (h : History)
      → leb a.register_count env.modbus_max_read_bits ≡ true
      → a.register_count ≤ length buf
      → room read ≤ length buf
      → BelongsTo a read
      → Returns (Ensures env doc a buf h) (read_bits_case env read a buf h)
  unfolding read_bits_case
  read_bits_case-Ensures read buf h ok fits reads own =
      let kept = filled-Kept env doc a read buf h own reads in
      rw (ok, filled-eq env doc a read buf h reads, Returns)
        (elim (Bool-cases (ltb_ℤ_ℕ (env.answer h read).ret a.register_count)) [
          | inl short ↦ rw (short, Returns) kept
          | inr full ↦
              rw (full, Returns)
                (bits_delivered-Own env doc a (length buf) (env.answer h read).ret h
                  (filled buf (env.answer h read)) (event env read h ∷ h) fits kept)
        ])

  pub read_registers_case-Ensures :
      (read : Call) (buf : List ℕ) (h : History)
      → leb a.register_count env.modbus_max_read_registers ≡ true
      → 2 * a.register_count ≤ length buf
      → room read ≤ length buf
      → BelongsTo a read
      → Returns (Ensures env doc a buf h) (read_registers_case env read a buf h)
  unfolding read_registers_case
  read_registers_case-Ensures read buf h ok fits reads own =
      let kept = filled-Kept env doc a read buf h own reads in
      rw (ok, filled-eq env doc a read buf h reads, Returns)
        (elim (Bool-cases (ltb_ℤ_ℕ (env.answer h read).ret a.register_count)) [
          | inl short ↦ rw (short, Returns) kept
          | inr full ↦
              rw (full, Returns)
                (bytes_delivered-Own env doc a (length buf) (a.register_count * 2)
                  (env.answer h read).ret h (filled buf (env.answer h read)) (event env read h ∷ h)
                  (omega arith) (omega arith) kept)
        ])

  pub report_slave_id_case-Ensures :
      (buf : List ℕ) (h : History)
      → leb a.register_count modbus_max_pdu_length ≡ true
      → length buf ≡ max_register_size_per_action
      → Returns (Ensures env doc a buf h) (report_slave_id_case env a buf h)
  unfolding report_slave_id_case
  report_slave_id_case-Ensures buf h ok size =
      let read = modbus_report_slave_id max_register_size_per_action in
      let few = leb→le _ _ ok in
      let kept = filled-Kept env doc a read buf h refl (omega arith) in
      rw (ok, filled-eq env doc a read buf h (omega arith), Returns)
        (elim (Bool-cases (ltb_ℤ_ℕ (env.answer h read).ret a.register_count)) [
          | inl short ↦ rw (short, Returns) kept
          | inr full ↦
              rw (full, Returns)
                (bytes_delivered-Own env doc a (length buf) a.register_count (env.answer h read).ret
                  h (filled buf (env.answer h read)) (event env read h ∷ h) (omega arith)
                  (omega arith) kept)
        ])
