-- ===== src/Processor/Bits.antt =====
-- What actions that read bits move into the process image.
use revpi_modbus.Prelude.{
  ℕ, ◌≤◌, ◌<◌, ◌≡◌, refl, ◌⊎◌, inl, inr, List, length, get_or, true, false, leb, le→leb, arith,
  some,
}
use revpi_modbus.Prelude.Int.{pos, ltb_ℤ_ℕ}
use revpi_modbus.Config.{ModbusAction, read_coils, read_discrete_inputs}
use revpi_modbus.External.{
  Env, Call, History, IsDocumented, done, followed_by, filled, modbus_read_bits,
  modbus_read_input_bits,
}
use revpi_modbus.External.Reasoning.{Returns, Returns-bind, length-fill}
use revpi_modbus.Processor.{
  Transfer, transfer, accepts, wire_address, read_bits_case, bits_delivered, set_bits,
}
use revpi_modbus.Processor.Safety.{Fits}
use revpi_modbus.Processor.Coils.{TakesBits, latest_coil, Stored, set_bits-Stored}

-- The libmodbus call of an action that reads bits.
abbrev pub BitRead : ModbusAction → Call → Type 0
BitRead a read =
    ((a.function_code ≡ read_coils) × (read ≡ modbus_read_bits (wire_address a) a.register_count))
    ⊎ ((a.function_code ≡ read_discrete_inputs)
        × (read ≡ modbus_read_input_bits (wire_address a) a.register_count))

module _ (env : Env) (a : ModbusAction) (buf : List ℕ) (h : History) (f : Fits a buf)
    (ok : accepts env a ≡ true) where
  transfer-bits :
      (read : Call) → BitRead a read → transfer env a buf h ≡ read_bits_case env read a buf h
  unfolding transfer
  transfer-bits read (inl (fc, c)) = rw c (ground arith)
  transfer-bits read (inr (fc, c)) = rw c (ground arith)

  bits_accepted :
      (read : Call) → BitRead a read → leb a.register_count env.modbus_max_read_bits ≡ true
  unfolding accepts
  bits_accepted read (inl (fc, c)) = ground arith
  bits_accepted read (inr (fc, c)) = ground arith

  bits_fit :
      IsDocumented env
      → (read : Call) → BitRead a read
      → length (env.answer h read).out ≤ length buf
  bits_fit doc read (inl (fc, c)) = rw c (
      let le = doc.fits h (modbus_read_bits (wire_address a) a.register_count) in
      omega (arith, f.size, f.count))
  bits_fit doc read (inr (fc, c)) = rw c (
      let le = doc.fits h (modbus_read_input_bits (wire_address a) a.register_count) in
      omega (arith, f.size, f.count))

  -- What is in the process image after an action that read bits: each coil's latest value is the
  -- byte received for it, and the result is the number the slave delivered.
  abbrev pub BitsMoved : Call → Transfer → History → Type 0
  BitsMoved read t h' =
      (t.len ≡ (env.answer h read).ret)
      × ((i : ℕ)
          → i < a.register_count
          → latest_coil a h' i ≡ some (get_or (filled buf (env.answer h read)) i 0))

  -- If the process image takes every bit, an action that reads bits, for which the slave delivers
  -- as many as asked for, leaves at each coil's position the byte received for that coil: no later
  -- one of the action's own writes overwrites it.
  pub read_bits_lem :
      IsDocumented env
      → TakesBits env
      → (read : Call) → BitRead a read
      → ltb_ℤ_ℕ (env.answer h read).ret a.register_count ≡ false
      → Returns (BitsMoved read) (transfer env a buf h)
  unfolding read_bits_case bits_delivered
  read_bits_lem doc takes read reads full =
      let le = bits_fit doc read reads in
      let buf' = filled buf (env.answer h read) in
      let size : length buf' ≡ length buf = length-fill buf (env.answer h read).out le in
      rw (transfer-bits read reads, bits_accepted read reads, le→leb _ _ le, full, Returns)
        (Returns-bind
          (λ s h'. Stored env a buf' takes 0 a.register_count (followed_by env read h) h')
          (BitsMoved read) (set_bits env a buf' a.register_count 0 (pos 0)) _
          (followed_by env read h)
          (set_bits-Stored env a buf' takes a.register_count 0 a.register_count (pos 0)
            (followed_by env read h) (omega arith) (omega (arith, f.size, f.count))
            (omega (arith, f.count)))
          λ s h' stored. (refl, λ i lt. ground (arith, stored i lt)))

  -- If the slave delivers fewer bits than asked for, the process image is not touched.
  pub read_bits_short :
      IsDocumented env
      → (read : Call) → BitRead a read
      → ltb_ℤ_ℕ (env.answer h read).ret a.register_count ≡ true
      → transfer env a buf h
        ≡ done
            (record {
              len = (env.answer h read).ret;
              successful = pos 0;
              buffer = filled buf (env.answer h read);
            })
            (followed_by env read h)
  unfolding read_bits_case
  read_bits_short doc read reads short =
      rw (transfer-bits read reads)
        (let le = bits_fit doc read reads in let ok' = bits_accepted read reads in ground arith)
