-- ===== src/Tests/Processor.antt =====
-- Runs and instances for src/ComAndDataProcessor.c.
use revpi_modbus.Processor.Bits.{read_bits_lem, BitsMoved}
use revpi_modbus.Processor.Registers.{
  write_registers_lem, write_register_lem, read_registers_lem, process_modbus_action_aborts,
}
use revpi_modbus.Processor.Safety.{process_modbus_action_lem, Completed}
use revpi_modbus.Processor.Coils.{coil_position_lem}
use revpi_modbus.External.Reasoning.{Returns}
use revpi_modbus.Processor.{
  transfer, reset_modbus_action_status, coil_bit, process_modbus_action, coil_byte, wire_address,
  accepts,
}
use revpi_modbus.Prelude.{
  ◌++◌, ◌↔◌, ◌+◌, ◌*◌, ℕ, ◌≡◌, ◌<◌, refl, List, inl, true, replicate, length-replicate, arith, [],
}
use revpi_modbus.Prelude.Int.{ℤ, pos}
use revpi_modbus.Config.{ModbusAction, write_multiple_registers, write_single_register}
use revpi_modbus.External.{
  pi_read, modbus_write_registers, modbus_write_register, pi_write, done, mutex_lock, Call, Env,
  IsDocumented, History, room, modbus_read_bits, modbus_read_input_bits, modbus_read_registers,
  modbus_read_input_registers, modbus_new, followed_by, Outcome,
}
use revpi_modbus.Processor.Status.{reset_modbus_action_status_lem, Acknowledges}
use revpi_modbus.Tests.Samples.{read_two, read_eight_coils, reply_with}

-- The value of a call, if the slave delivers the given number of bits or registers. What is made is
-- no null pointer.
abbrev pub value_of : ℕ → Call → ℤ
value_of n (modbus_read_bits addr nb) = pos n
value_of n (modbus_read_input_bits addr nb) = pos n
value_of n (modbus_read_registers addr nb) = pos n
value_of n (modbus_read_input_registers addr nb) = pos n
value_of n modbus_new = pos 1
value_of n c = pos (room c)

-- Libraries that store ones.
abbrev pub delivering : ℕ → Env
delivering n = record {
  answer = λ h c. reply_with (value_of n c) (replicate (room c) 1);
  modbus_max_read_bits = 2000;
  modbus_max_write_bits = 1968;
  modbus_max_read_registers = 125;
  modbus_max_write_registers = 123;
  modbus_enobase = 112_345_678;
}

pub delivering-IsDocumented : (n : ℕ) → IsDocumented (delivering n)
delivering-IsDocumented n = record {
  fits = λ h c. omega (arith, length-replicate {A = ℕ} (room c) 1);
  read_limit = omega arith;
  write_limit = omega arith;
}

abbrev buffer : List ℕ
buffer = replicate 256 0

-- The last step of a history, and the histories of the runs below.
abbrev after_call : ℕ → Call → History → History
after_call n c h = followed_by (delivering n) c h

-- Writes of two registers and of one.
abbrev write_two : ModbusAction
write_two = record read_two { function_code = write_multiple_registers }

abbrev write_one : ModbusAction
write_one = record read_two { function_code = write_single_register; register_count = 1 }

-- More registers than a request holds.
abbrev read_too_many : ModbusAction
read_too_many = record read_two { register_count = 200 }

read_eight_accepted : accepts (delivering 8) read_eight_coils ≡ true
unfolding accepts
read_eight_accepted = refl

process_modbus_action_lem_example :
    Returns
      (Completed (delivering 2) read_two buffer [])
      (process_modbus_action (delivering 2) read_two buffer [])
unfolding accepts
process_modbus_action_lem_example =
    process_modbus_action_lem (delivering 2) read_two buffer [] (delivering-IsDocumented 2)
      (record { size = refl; count = omega arith }) refl

read_registers_lem_example :
    transfer (delivering 2) read_two buffer []
    ≡ done
        (record { len = pos 2; successful = pos 0; buffer = replicate 4 1 ++ replicate 252 0 })
        (after_call 2
          (pi_write 10 4 (replicate 4 1))
          (after_call 2 (modbus_read_registers 1199 2) []))
unfolding accepts wire_address
read_registers_lem_example =
    read_registers_lem (delivering 2) read_two buffer [] (delivering-IsDocumented 2)
      (record { size = refl; count = omega arith }) refl (modbus_read_registers 1199 2)
      (inl (refl, refl))

write_registers_lem_example :
    transfer (delivering 2) write_two buffer []
    ≡ done
        (record { len = pos 0; successful = pos 4; buffer = replicate 4 1 ++ replicate 252 0 })
        (after_call 2
          (modbus_write_registers 1199 2 (replicate 4 1))
          (after_call 2 (pi_read 10 4) []))
unfolding accepts wire_address
write_registers_lem_example =
    write_registers_lem (delivering 2) write_two buffer [] (delivering-IsDocumented 2)
      (record { size = refl; count = omega arith }) refl refl

write_register_lem_example :
    transfer (delivering 2) write_one buffer []
    ≡ done
        (record { len = pos 0; successful = pos 2; buffer = replicate 2 1 ++ replicate 254 0 })
        (after_call 2 (modbus_write_register 1199 257) (after_call 2 (pi_read 10 2) []))
unfolding accepts wire_address
write_register_lem_example =
    write_register_lem (delivering 2) write_one buffer [] (delivering-IsDocumented 2)
      (record { size = refl; count = omega arith }) refl refl

process_modbus_action_aborts_example :
    process_modbus_action (delivering 2) read_too_many buffer []
    ≡ Outcome.aborted (after_call 2 mutex_lock [])
unfolding accepts
process_modbus_action_aborts_example =
    process_modbus_action_aborts (delivering 2) read_too_many buffer [] refl

read_bits_lem_example :
    Returns
      (BitsMoved
        (delivering 8)
        read_eight_coils
        buffer
        []
        (record { size = refl; count = omega arith })
        read_eight_accepted
        (modbus_read_bits 1199 8))
      (transfer (delivering 8) read_eight_coils buffer [])
unfolding wire_address
read_bits_lem_example =
    read_bits_lem (delivering 8) read_eight_coils buffer []
      (record { size = refl; count = omega arith }) read_eight_accepted (delivering-IsDocumented 8)
      (λ h address bit v. refl) (modbus_read_bits 1199 8) (inl (refl, refl)) refl

-- From start bit 4 on, the fourth coil lies in the next byte's place, the fifth does not.
coil_position_lem_example :
    (8 * coil_byte (record read_eight_coils { start_bit_process_data = 4 }) 5
        + coil_bit (record read_eight_coils { start_bit_process_data = 4 }) 5
      ≡ 89)
    ↔ (9 < 8)
coil_position_lem_example =
    coil_position_lem (record read_eight_coils { start_bit_process_data = 4 }) 5 (omega arith)
      (omega arith)

reset_modbus_action_status_lem_example :
    Acknowledges (delivering 0) 137 3 68 [] (reset_modbus_action_status (delivering 0) 137 3 68 [])
reset_modbus_action_status_lem_example = reset_modbus_action_status_lem (delivering 0) 137 3 68 []
