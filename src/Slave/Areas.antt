-- ===== src/Slave/Areas.antt =====
-- What src/piProcessImageAccess.c reads into the mapping and writes from it, area by area.
use revpi_modbus.Config.{ProcessImageConfiguration}
use revpi_modbus.Prelude.{
  ◌*◌, ◌/◌, ◌≤◌, ◌≡◌, ltb, take, length, refl, ◌∙◌, sym, ap, if◌then◌else◌, Bool-cases, inl, inr,
  arith,
}
use revpi_modbus.Prelude.Int.{ℤ, pos, is_nonpos}
use revpi_modbus.External.{
  Env, History, IsDocumented, call, branch, ◌>>=◌, followed_by, filled, pi_read, pi_write,
}
use revpi_modbus.External.Reasoning.{Returns, length-fill, fill-eq, payload-eq}
use revpi_modbus.Slave.Access.{MappingIsSized}
use revpi_modbus.Slave.{
  Mapping, read_input_registers_area, read_modbus_data_from_process_image, write_registers_area,
  write_modbus_data_to_process_image,
}

module _ (env : Env) (c : ProcessImageConfiguration) where
  -- The mapping and the history after the input registers are read, if there are any.
  abbrev registers_read : Mapping → History → Mapping × History
  registers_read m h =
      let access = pi_read c.input_registers_offset (m.nb_input_registers * 2) in
      if ltb 0 m.nb_input_registers
      then (
        record m { tab_input_registers = filled m.tab_input_registers (env.answer h access) },
        followed_by env access h,
      )
      else (m, h)

  -- The same after the discrete inputs and, unless their read fails or delivers nothing, the input
  -- registers are read.
  abbrev pub inputs_read : Mapping → History → Mapping × History
  inputs_read m h =
      let access = pi_read c.discrete_inputs_offset (m.nb_input_bits / 8) in
      let m' = record m { tab_input_bits = filled m.tab_input_bits (env.answer h access) } in
      if ltb 0 m.nb_input_bits
      then (if is_nonpos (env.answer h access).ret
          then (m', followed_by env access h)
          else registers_read m' (followed_by env access h))
      else registers_read m h

  abbrev registers_written : Mapping → History → History
  registers_written m h =
      if ltb 0 m.nb_registers
      then followed_by env
          (pi_write c.holding_registers_input_offset (m.nb_registers * 2)
            (take (m.nb_registers * 2) m.tab_registers))
          h
      else h

  -- The history after the coils and, unless their write fails or writes nothing, the holding registers
  -- are written.
  abbrev pub outputs_written : Mapping → History → History
  outputs_written m h =
      let access =
        pi_write c.coils_input_offset (m.nb_bits / 8) (take (m.nb_bits / 8) m.tab_bits) in
      if ltb 0 m.nb_bits
      then (if is_nonpos (env.answer h access).ret
          then followed_by env access h
          else registers_written m (followed_by env access h))
      else registers_written m h

  module _ (doc : IsDocumented env) where
    registers_read_lem :
        (m : Mapping) (s : ℤ) (h : History) (x : Mapping × History)
        → MappingIsSized m
        → registers_read m h ≡ x
        → Returns (λ r h'. (r.1 ≡ x.0) × (h' ≡ x.1)) (read_input_registers_area env m c s h)
    unfolding read_input_registers_area
    registers_read_lem m s h x sized is = elim (Bool-cases (ltb 0 m.nb_input_registers)) [
      | inl some_registers ↦
          let access = pi_read c.input_registers_offset (m.nb_input_registers * 2) in
          let le : length (env.answer h access).out ≤ length m.tab_input_registers =
            omega (arith, doc.fits h access, sized.input_registers) in
          let m' = record m {
            tab_input_registers = filled m.tab_input_registers (env.answer h access);
          } in
          let e : registers_read m h ≡ (m', followed_by env access h) =
            rw (registers_read, some_registers) refl in
          rw
            (
              some_registers,
              fill-eq m.tab_input_registers (env.answer h access).out (followed_by env access h) le,
              Returns,
            )
            (ap (λ y. y.0) (sym e ∙ is), ap (λ y. y.1) (sym e ∙ is))
      | inr none ↦
          let e : registers_read m h ≡ (m, h) = rw (registers_read, none) refl in
          rw (none, Returns) (ap (λ y. y.0) (sym e ∙ is), ap (λ y. y.1) (sym e ∙ is))
    ]

    -- Reading the process image leaves the mapping and the history that `inputs_read` says.
    pub inputs_read_lem :
        (m : Mapping) (h : History) (x : Mapping × History)
        → MappingIsSized m
        → inputs_read m h ≡ x
        → Returns (λ r h'. (r.1 ≡ x.0) × (h' ≡ x.1)) (read_modbus_data_from_process_image env m c h)
    unfolding read_modbus_data_from_process_image
    inputs_read_lem m h x sized is = elim (Bool-cases (ltb 0 m.nb_input_bits)) [
      | inl some_bits ↦
          let access = pi_read c.discrete_inputs_offset (m.nb_input_bits / 8) in
          let le : length (env.answer h access).out ≤ length m.tab_input_bits =
            omega (arith, doc.fits h access, sized.input_bits) in
          let m' : Mapping = record m {
            tab_input_bits = filled m.tab_input_bits (env.answer h access);
          } in
          let h₁ : History = followed_by env access h in
          let sized' : MappingIsSized m' = record {
            bits = sized.bits;
            registers = sized.registers;
            input_bits = omega (
              arith,
              length-fill m.tab_input_bits (env.answer h access).out le,
              sized.input_bits,
            );
            input_registers = sized.input_registers;
          } in
          rw
            (
              some_bits,
              branch,
              ◌>>=◌,
              call,
              fill-eq m.tab_input_bits (env.answer h access).out (followed_by env access h) le,
            )
            (elim (Bool-cases (is_nonpos (env.answer h access).ret)) [
              | inl failed ↦
                  let e : inputs_read m h ≡ (m', h₁) = rw (inputs_read, some_bits, failed) refl in
                  rw (failed, branch, Returns)
                    (ap (λ y. y.0) (sym e ∙ is), ap (λ y. y.1) (sym e ∙ is))
              | inr fine ↦
                  let e : inputs_read m h ≡ registers_read m' h₁ =
                    rw (inputs_read, some_bits, fine) refl in
                  rw fine (registers_read_lem m' (env.answer h access).ret h₁ x sized' (sym e ∙ is))
            ])
      | inr none ↦
          let e : inputs_read m h ≡ registers_read m h = rw (inputs_read, none) refl in
          rw none (registers_read_lem m (pos 0) h x sized (sym e ∙ is))
    ]

    registers_written_lem :
        (m : Mapping) (s : ℤ) (h x : History)
        → MappingIsSized m
        → registers_written m h ≡ x
        → Returns (λ s' h'. h' ≡ x) (write_registers_area env m c s h)
    unfolding write_registers_area
    registers_written_lem m s h x sized is = elim (Bool-cases (ltb 0 m.nb_registers)) [
      | inl some_registers ↦
          let bytes = take (m.nb_registers * 2) m.tab_registers in
          let access = pi_write c.holding_registers_input_offset (m.nb_registers * 2) bytes in
          let e : registers_written m h ≡ followed_by env access h =
            rw (registers_written, some_registers) refl in
          rw
            (
              some_registers,
              payload-eq m.tab_registers (m.nb_registers * 2) h (omega (arith, sized.registers)),
              Returns,
            )
            (sym e ∙ is)
      | inr none ↦
          let e : registers_written m h ≡ h = rw (registers_written, none) refl in
          rw (none, Returns) (sym e ∙ is)
    ]

    -- Writing the process image leaves the history that `outputs_written` says.
    pub outputs_written_lem :
        (m : Mapping) (h x : History)
        → MappingIsSized m
        → outputs_written m h ≡ x
        → Returns (λ s h'. h' ≡ x) (write_modbus_data_to_process_image env m c h)
    unfolding write_modbus_data_to_process_image
    outputs_written_lem m h x sized is = elim (Bool-cases (ltb 0 m.nb_bits)) [
      | inl some_bits ↦
          let access =
            pi_write c.coils_input_offset (m.nb_bits / 8) (take (m.nb_bits / 8) m.tab_bits) in
          let h₁ : History = followed_by env access h in
          rw
            (
              some_bits,
              branch,
              ◌>>=◌,
              payload-eq m.tab_bits (m.nb_bits / 8) h (omega (arith, sized.bits)),
            )
            (elim (Bool-cases (is_nonpos (env.answer h access).ret)) [
              | inl failed ↦
                  let e : outputs_written m h ≡ h₁ = rw (outputs_written, some_bits, failed) refl in
                  rw (failed, branch, Returns) (sym e ∙ is)
              | inr fine ↦
                  let e : outputs_written m h ≡ registers_written m h₁ =
                    rw (outputs_written, some_bits, fine) refl in
                  rw fine
                    (registers_written_lem m (env.answer h access).ret h₁ x sized (sym e ∙ is))
            ])
      | inr none ↦
          let e : outputs_written m h ≡ registers_written m h = rw (outputs_written, none) refl in
          rw none (registers_written_lem m (pos 0) h x sized (sym e ∙ is))
    ]
