-- ===== src/Processor/Safety/Writes.antt =====
-- The cases that write to the slave.
use revpi_modbus.Prelude.{
  ==_iff, ◌*◌, ◌==◌, length-take, le→leb, true, leb, ℕ, ◌≤◌, ◌≡◌, refl, List, length, ◌∷◌,
  Bool-cases, inl, inr, get_elem?-eq-get_or, arith,
}
use revpi_modbus.Prelude.Int.{is_nonpos, pos, ℤ, is_neg}
use revpi_modbus.Config.{ModbusAction}
use revpi_modbus.External.{event, filled, pi_read, Env, History, IsDocumented}
use revpi_modbus.External.Reasoning.{Returns-bind, Returns}
use revpi_modbus.Processor.{
  send_coil, write_multiple_coils_case, write_multiple_registers_case, write_single_register_case,
  send_coils, send_registers, send_register, write_single_coil_case, get_bits,
}
use revpi_modbus.Processor.Scope.{start, after}
use revpi_modbus.Processor.Safety.Loops.{Kept, Ensures, filled-Kept, filled-eq, get_bits-Own}

module _ (env : Env) (doc : IsDocumented env) (a : ModbusAction) where
  pub send_register-Own :
      (size : ℕ) (s : ℤ) (h₀ : History) (buf : List ℕ) (h : History)
      → 2 ≤ size
      → Kept env doc a size h₀ buf h
      → Returns (λ t h'. Kept env doc a size h₀ t.buffer h') (send_register env a s buf h)
  unfolding send_register
  send_register-Own size s h₀ buf h fits (same, own) =
      rw
        (
          get_elem?-eq-get_or buf 0 0 (omega arith),
          get_elem?-eq-get_or buf 1 0 (omega arith),
          Returns,
        )
        (same, after _ refl own)

  pub write_single_register_case-Ensures :
      (buf : List ℕ) (h : History)
      → (a.register_count == 1) ≡ true
      → 2 ≤ length buf
      → Returns (Ensures env doc a buf h) (write_single_register_case env a buf h)
  unfolding write_single_register_case
  write_single_register_case-Ensures buf h ok fits =
      let one = (==_iff a.register_count 1).0 ok in
      let read = pi_read a.start_byte_process_data (a.register_count * 2) in
      let kept = filled-Kept env doc a read buf h (refl, omega arith) (omega arith) in
      rw (ok, filled-eq env doc a read buf h (omega arith), Returns)
        (elim (Bool-cases (is_nonpos (env.answer h read).ret)) [
          | inl failed ↦ rw (failed, Returns) kept
          | inr read_in ↦
              rw (read_in, Returns)
                (send_register-Own (length buf) (env.answer h read).ret h
                  (filled buf (env.answer h read)) (event env read h ∷ h) fits kept)
        ])

  pub send_registers-Own :
      (size : ℕ) (s : ℤ) (h₀ : History) (buf : List ℕ) (h : History)
      → 2 * a.register_count ≤ size
      → Kept env doc a size h₀ buf h
      → Returns (λ t h'. Kept env doc a size h₀ t.buffer h') (send_registers env a s buf h)
  unfolding send_registers
  send_registers-Own size s h₀ buf h fits (same, own) =
      let le : a.register_count * 2 ≤ length buf = omega arith in
      rw (le→leb (a.register_count * 2) (length buf) le, Returns)
        (same, after _ (refl, refl, omega (arith, length-take (a.register_count * 2) buf)) own)

  pub write_multiple_registers_case-Ensures :
      (buf : List ℕ) (h : History)
      → leb a.register_count env.modbus_max_write_registers ≡ true
      → 2 * a.register_count ≤ length buf
      → Returns (Ensures env doc a buf h) (write_multiple_registers_case env a buf h)
  unfolding write_multiple_registers_case
  write_multiple_registers_case-Ensures buf h ok fits =
      let read = pi_read a.start_byte_process_data (a.register_count * 2) in
      let kept = filled-Kept env doc a read buf h (refl, omega arith) (omega arith) in
      rw (ok, filled-eq env doc a read buf h (omega arith), Returns)
        (elim (Bool-cases (is_nonpos (env.answer h read).ret)) [
          | inl failed ↦ rw (failed, Returns) kept
          | inr read_in ↦
              rw (read_in, Returns)
                (send_registers-Own (length buf) (env.answer h read).ret h
                  (filled buf (env.answer h read)) (event env read h ∷ h) fits kept)
        ])

  pub send_coil-Own :
      (size : ℕ) (s : ℤ) (h₀ : History) (buf : List ℕ) (h : History)
      → 1 ≤ size
      → Kept env doc a size h₀ buf h
      → Returns (λ t h'. Kept env doc a size h₀ t.buffer h') (send_coil env a s buf h)
  unfolding send_coil
  send_coil-Own size s h₀ buf h fits (same, own) =
      rw (get_elem?-eq-get_or buf 0 0 (omega arith), Returns) (same, after _ refl own)

  pub send_coils-Own :
      (size : ℕ) (s : ℤ) (h₀ : History) (buf : List ℕ) (h : History)
      → a.register_count ≤ size
      → Kept env doc a size h₀ buf h
      → Returns (λ t h'. Kept env doc a size h₀ t.buffer h') (send_coils env a s buf h)
  unfolding send_coils
  send_coils-Own size s h₀ buf h fits (same, own) =
      let le : a.register_count ≤ length buf = omega arith in
      rw (le→leb a.register_count (length buf) le, Returns)
        (same, after _ (refl, refl, omega (arith, length-take a.register_count buf)) own)

  pub write_single_coil_case-Ensures :
      (buf : List ℕ) (h : History)
      → (a.register_count == 1) ≡ true
      → 1 ≤ length buf
      → Returns (Ensures env doc a buf h) (write_single_coil_case env a buf h)
  unfolding write_single_coil_case
  write_single_coil_case-Ensures buf h ok fits =
      let one = (==_iff a.register_count 1).0 ok in
      rw (ok, Returns)
        (Returns-bind (λ r h'. Kept env doc a (length buf) h r.1 h') (Ensures env doc a buf h)
          (get_bits env a buf a.register_count 0 (pos 0)) _ h
          (get_bits-Own env doc a (length buf) h buf a.register_count 0 (pos 0) h (omega arith)
            (omega arith) (refl, start))
          (λ r h' kept. elim (Bool-cases (is_neg r.0)) [
            | inl failed ↦ rw (failed, Returns) kept
            | inr read_in ↦
                rw (read_in, Returns) (send_coil-Own (length buf) r.0 h r.1 h' fits kept)
          ]))

  pub write_multiple_coils_case-Ensures :
      (buf : List ℕ) (h : History)
      → leb a.register_count env.modbus_max_write_bits ≡ true
      → a.register_count ≤ length buf
      → Returns (Ensures env doc a buf h) (write_multiple_coils_case env a buf h)
  unfolding write_multiple_coils_case
  write_multiple_coils_case-Ensures buf h ok fits =
      rw (ok, Returns)
        (Returns-bind (λ r h'. Kept env doc a (length buf) h r.1 h') (Ensures env doc a buf h)
          (get_bits env a buf a.register_count 0 (pos 0)) _ h
          (get_bits-Own env doc a (length buf) h buf a.register_count 0 (pos 0) h fits (omega arith)
            (refl, start))
          (λ r h' kept. elim (Bool-cases (is_neg r.0)) [
            | inl failed ↦ rw (failed, Returns) kept
            | inr read_in ↦
                rw (read_in, Returns) (send_coils-Own (length buf) r.0 h r.1 h' fits kept)
          ]))
