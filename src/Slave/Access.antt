-- ===== src/Slave/Access.antt =====
-- The accesses of a slave to the process image: their places, and the size of the mapping.
use revpi_modbus.Config.{ProcessImageConfiguration}
use revpi_modbus.Prelude.{
  refl, ltb, Bool-cases, ap, ◌*◌, ◌/◌, ◌≤◌, ◌≡◌, ◌⊎◌, inl, inr, length, take, arith,
}
use revpi_modbus.Prelude.Int.{ℤ, pos, is_nonpos}
use revpi_modbus.External.{
  call, ◌>>=◌, event, Env, Call, History, IsDocumented, followed_by, filled, pi_read, pi_write,
  branch,
}
use revpi_modbus.External.Reasoning.{Returns, fill-eq, length-fill, payload-eq}
use revpi_modbus.Processor.Scope.{Extends, start, after}
use revpi_modbus.Slave.{
  Mapping, write_registers_area, write_modbus_data_to_process_image, read_input_registers_area,
  read_modbus_data_from_process_image,
}

-- The tables of a mapping are as long as its counts say: libmodbus keeps a byte for each bit and two
-- for each register.
pub record MappingIsSized (m : Mapping) : Type 0 where
  pub bits : m.nb_bits ≤ length m.tab_bits
  pub registers : 2 * m.nb_registers ≤ length m.tab_registers
  pub input_bits : m.nb_input_bits ≤ length m.tab_input_bits
  pub input_registers : 2 * m.nb_input_registers ≤ length m.tab_input_registers

-- The accesses that fill the mapping's inputs, and those that publish its outputs.
abbrev pub FillsInputs : Mapping → ProcessImageConfiguration → Call → Type 0
FillsInputs m c (pi_read offset len) =
    ((offset ≡ c.discrete_inputs_offset) × (len ≡ m.nb_input_bits / 8))
    ⊎ ((offset ≡ c.input_registers_offset) × (len ≡ m.nb_input_registers * 2))
FillsInputs m c _ = ⊥

abbrev pub PublishesOutputs : Mapping → ProcessImageConfiguration → Call → Type 0
PublishesOutputs m c (pi_write offset len bytes) =
    ((offset ≡ c.coils_input_offset) × (len ≡ m.nb_bits / 8) × (bytes ≡ take len m.tab_bits))
    ⊎ ((offset ≡ c.holding_registers_input_offset)
        × (len ≡ m.nb_registers * 2)
        × (bytes ≡ take len m.tab_registers))
PublishesOutputs m c _ = ⊥

module _ (env : Env) (doc : IsDocumented env) (c : ProcessImageConfiguration) where
  -- The mapping read keeps its size, and only inputs were read.
  abbrev Read : Mapping → History → (ℤ × Mapping) → History → Type 0
  Read m h r h' = MappingIsSized r.1 × Extends (FillsInputs m c) h h'

  read_input_registers_area_lem :
      (m m₀ : Mapping) (s : ℤ) (h h₀ : History)
      → MappingIsSized m
      → m.nb_input_registers ≡ m₀.nb_input_registers
      → Extends (FillsInputs m₀ c) h₀ h
      → Returns
          (λ r h'. MappingIsSized r.1 × Extends (FillsInputs m₀ c) h₀ h')
          (read_input_registers_area env m c s h)
  unfolding read_input_registers_area
  read_input_registers_area_lem m m₀ s h h₀ sized same before =
      elim (Bool-cases (ltb 0 m.nb_input_registers)) [
        | inl some_registers ↦
            let call = pi_read c.input_registers_offset (m.nb_input_registers * 2) in
            let le : length (env.answer h call).out ≤ length m.tab_input_registers =
              omega (arith, doc.fits h call, sized.input_registers) in
            let kept : 2 * m.nb_input_registers
                ≤ length (filled m.tab_input_registers (env.answer h call)) =
              omega (
                arith,
                length-fill m.tab_input_registers (env.answer h call).out le,
                sized.input_registers,
              ) in
            rw
              (
                some_registers,
                fill-eq m.tab_input_registers (env.answer h call).out (followed_by env call h) le,
                Returns,
              )
              (
                record {
                  bits = sized.bits;
                  registers = sized.registers;
                  input_bits = sized.input_bits;
                  input_registers = kept;
                },
                after (event env call h) (inr (refl, ap (λ n. n * 2) same)) before,
              )
        | inr none ↦ rw (none, Returns) (sized, before)
      ]

  write_registers_area_lem :
      (m : Mapping) (s : ℤ) (h h₀ : History)
      → MappingIsSized m
      → Extends (PublishesOutputs m c) h₀ h
      → Returns (λ s' h'. Extends (PublishesOutputs m c) h₀ h') (write_registers_area env m c s h)
  unfolding write_registers_area
  write_registers_area_lem m s h h₀ sized before = elim (Bool-cases (ltb 0 m.nb_registers)) [
    | inl some_registers ↦
        rw
          (
            some_registers,
            payload-eq m.tab_registers (m.nb_registers * 2) h (omega (arith, sized.registers)),
            Returns,
          )
          (after
            (event env
              (pi_write c.holding_registers_input_offset (m.nb_registers * 2)
                (take (m.nb_registers * 2) m.tab_registers))
              h)
            (inr (refl, refl, refl)) before)
    | inr none ↦ rw (none, Returns) before
  ]

  pub read_modbus_data_lem :
      (m : Mapping) (h : History)
      → MappingIsSized m
      → Returns
          (λ r h'. MappingIsSized r.1 × Extends (FillsInputs m c) h h')
          (read_modbus_data_from_process_image env m c h)
  unfolding read_modbus_data_from_process_image
  read_modbus_data_lem m h sized = elim (Bool-cases (ltb 0 m.nb_input_bits)) [
    | inl some_bits ↦
        let access = pi_read c.discrete_inputs_offset (m.nb_input_bits / 8) in
        let le : length (env.answer h access).out ≤ length m.tab_input_bits =
          omega (arith, doc.fits h access, sized.input_bits) in
        let bytes = filled m.tab_input_bits (env.answer h access) in
        let sized' : MappingIsSized (record m { tab_input_bits = bytes }) = record {
          bits = sized.bits;
          registers = sized.registers;
          input_bits =
              omega (
                arith,
                length-fill m.tab_input_bits (env.answer h access).out le,
                sized.input_bits,
              );
          input_registers = sized.input_registers;
        } in
        let own : Extends (FillsInputs m c) h (followed_by env access h) =
          after (event env access h) (inl (refl, refl)) start in
        rw
          (
            some_bits,
            branch,
            ◌>>=◌,
            call,
            fill-eq m.tab_input_bits (env.answer h access).out (followed_by env access h) le,
          )
          (elim (Bool-cases (is_nonpos (env.answer h access).ret)) [
            | inl failed ↦ rw (failed, branch, Returns) (sized', own)
            | inr fine ↦ rw fine (
                read_input_registers_area_lem (record m { tab_input_bits = bytes }) m
                  (env.answer h access).ret (followed_by env access h) h sized' refl own)
          ])
    | inr none ↦ rw none (read_input_registers_area_lem m m (pos 0) h h sized refl start)
  ]

  pub write_modbus_data_lem :
      (m : Mapping) (h : History)
      → MappingIsSized m
      → Returns
          (λ s h'. Extends (PublishesOutputs m c) h h')
          (write_modbus_data_to_process_image env m c h)
  unfolding write_modbus_data_to_process_image
  write_modbus_data_lem m h sized = elim (Bool-cases (ltb 0 m.nb_bits)) [
    | inl some_bits ↦
        let access =
          pi_write c.coils_input_offset (m.nb_bits / 8) (take (m.nb_bits / 8) m.tab_bits) in
        let own : Extends (PublishesOutputs m c) h (followed_by env access h) =
          after (event env access h) (inl (refl, refl, refl)) start in
        rw
          (
            some_bits,
            branch,
            ◌>>=◌,
            payload-eq m.tab_bits (m.nb_bits / 8) h (omega (arith, sized.bits)),
          )
          (elim (Bool-cases (is_nonpos (env.answer h access).ret)) [
            | inl failed ↦ rw (failed, branch, Returns) own
            | inr fine ↦ rw fine (
                write_registers_area_lem m (env.answer h access).ret (followed_by env access h) h
                  sized own)
          ])
    | inr none ↦ rw none (write_registers_area_lem m (pos 0) h h sized start)
  ]
