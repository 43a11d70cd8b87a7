-- ===== src/Tests/File.antt =====
-- A file that is read, and one that ends too soon.
use revpi_modbus.Prelude.{
  ltb, if◌then◌else◌, ℕ, ◌≡◌, refl, some, none, List, [], ◌∷◌, length, replicate,
}
use revpi_modbus.Prelude.Int.{ℤ, pos}
use revpi_modbus.External.{Call, Env, tell, open_file, alloc_buffer, read_file}
use revpi_modbus.External.Reasoning.{Returns}
use revpi_modbus.Device.File.{
  read_config_file, open_config_file, read_open_file, read_into_buffer, keep_received, close_with,
}
use revpi_modbus.Tests.Samples.{reply_with}

abbrev minimum : ℕ → ℕ → ℕ
minimum m n = if ltb m n then m else n

-- A file of three bytes at its old place, of which `fread` gives `n` at most.
abbrev bytes_of : ℕ → Call → List ℕ
bytes_of n (read_file count) = replicate (minimum n count) 91
bytes_of n c = []

abbrev value_of : ℕ → Call → ℤ
value_of n (open_file path) = pos path
value_of n tell = pos 3
value_of n (alloc_buffer size) = pos 1
value_of n (read_file count) = pos (length (bytes_of n (read_file count)))
value_of n c = pos 0

abbrev disk : ℕ → Env
disk n = record {
  answer = λ h c. reply_with (value_of n c) (bytes_of n c);
  modbus_max_read_bits = 2000;
  modbus_max_write_bits = 1968;
  modbus_max_read_registers = 125;
  modbus_max_write_registers = 123;
  modbus_enobase = 112_345_678;
}

whole_file_read : Returns (λ r h'. r ≡ some (91 ∷ 91 ∷ 91 ∷ 0 ∷ [])) (read_config_file (disk 5) [])
unfolding read_config_file open_config_file read_open_file read_into_buffer keep_received close_with
whole_file_read = refl

short_file_read : Returns (λ r h'. r ≡ none) (read_config_file (disk 2) [])
unfolding read_config_file open_config_file read_open_file read_into_buffer keep_received close_with
short_file_read = refl
