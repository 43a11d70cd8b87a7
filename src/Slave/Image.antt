-- ===== src/Slave/Image.antt =====
-- What `writeModbusDataToProcessImage` in src/piProcessImageAccess.c publishes.
use revpi_modbus.Config.{ProcessImageConfiguration}
use revpi_modbus.Prelude.{
  ap, refl, inr, inl, Bool-cases, length, ◌≤◌, List, [], ℕ, ◌/◌, ◌<◌, ◌≡◌, take, ltb, arith,
}
use revpi_modbus.Prelude.Int.{is_nonpos, ℤ, pos}
use revpi_modbus.External.{
  pure, call, Outcome, ◌>>=◌, branch, Env, History, done, followed_by, pi_write,
}
use revpi_modbus.External.Reasoning.{payload-eq}
use revpi_modbus.Slave.{Mapping, write_registers_area, write_modbus_data_to_process_image}
use revpi_modbus.Slave.Access.{MappingIsSized}

module _ (env : Env) (c : ProcessImageConfiguration) where
  -- Coils behind the first eighth never reach the process image: whatever they are, the function
  -- makes the same calls and returns the same value.
  pub write_modbus_data_ignores :
      (m : Mapping) (bits : List ℕ) (h : History)
      → MappingIsSized m
      → m.nb_bits ≤ length bits
      → take (m.nb_bits / 8) bits ≡ take (m.nb_bits / 8) m.tab_bits
      → write_modbus_data_to_process_image env (record m { tab_bits = bits }) c h
        ≡ write_modbus_data_to_process_image env m c h
  unfolding write_modbus_data_to_process_image write_registers_area
  write_modbus_data_ignores m bits h sized long eighth =
      let e = payload-eq m.tab_bits (m.nb_bits / 8) h (omega (arith, sized.bits)) in
      let e' = payload-eq bits (m.nb_bits / 8) h (omega arith) in
      let publish : List ℕ → Outcome ℤ = λ bytes.
        (call env (pi_write c.coils_input_offset (m.nb_bits / 8) bytes) >>= λ r.
        branch (is_nonpos r.ret) (pure r.ret) (write_registers_area env m c r.ret))
          h in
      elim (Bool-cases (ltb 0 m.nb_bits)) [
        | inl some_bits ↦ rw (some_bits, branch, ◌>>=◌, e, e') (ap publish eighth)
        | inr no_bits ↦ rw (no_bits, branch) refl
      ]

  -- A slave with one to seven coils never publishes its holding registers, if the process image
  -- takes nothing of an empty access: the function then ends after it, with 0.
  pub write_modbus_data_few_coils :
      (m : Mapping) (h : History)
      → MappingIsSized m
      → 0 < m.nb_bits
      → m.nb_bits < 8
      → (env.answer h (pi_write c.coils_input_offset 0 [])).ret ≡ pos 0
      → write_modbus_data_to_process_image env m c h
        ≡ done (pos 0) (followed_by env (pi_write c.coils_input_offset 0 []) h)
  unfolding write_modbus_data_to_process_image
  write_modbus_data_few_coils m h sized some few nothing =
      let none : m.nb_bits / 8 ≡ 0 = omega arith in ground arith
