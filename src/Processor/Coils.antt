-- ===== src/Processor/Coils.antt =====
-- Where coil actions put their bits: the latest bits of the process image, by the history of calls,
-- and the position of each coil.
use revpi_modbus.External.Reasoning.{Returns-mono, Returns}
use revpi_modbus.Prelude.Int.{ℤ, is_neg}
use revpi_modbus.Prelude.{
  inr, inl, get_elem?-eq-get_or, zero, set, suc, get_or, length, ◌≤◌, Bool-cases, false, ltb, List,
  ℕ, ◌+◌, ◌*◌, ◌/◌, ◌%◌, ◌<◌, ◌^◌, ◌≡◌, ◌↔◌, [], ◌∷◌, if◌then◌else◌, arith, ◌==◌, ◌&&◌, Option,
  some, none,
}
use revpi_modbus.Config.{ModbusAction}
use revpi_modbus.External.{done, pi_get_bit, followed_by, Env, Call, History, pi_set_bit}
use revpi_modbus.Processor.{get_bits, set_bits, coil_byte, coil_bit}

-- Two coils of an action never share a position, for up to 2 ^ 19 coils.
pub coil-injective :
    (a : ModbusAction) (i j : ℕ)
    → i < 2 ^ 19
    → j < 2 ^ 19
    → coil_byte a i ≡ coil_byte a j
    → coil_bit a i ≡ coil_bit a j
    → i ≡ j
unfolding coil_byte coil_bit
coil-injective a i j hi hj same_byte same_bit = omega arith

-- Below the end of the address range, the i-th coil of an action lies `i` bits behind its first bit
-- exactly where the start bit and the last three bits of `i` add up to less than eight. So all coils
-- are consecutive if the action starts at bit 0, and otherwise those that should run over into the
-- next byte are put into the low bits of the same one.
pub coil_position_lem :
    (a : ModbusAction) (i : ℕ)
    → a.start_bit_process_data < 8
    → a.start_byte_process_data + i / 8 < 2 ^ 16
    → (8 * coil_byte a i + coil_bit a i
        ≡ 8 * a.start_byte_process_data + a.start_bit_process_data + i)
      ↔ (a.start_bit_process_data + i % 8 < 8)
unfolding coil_byte coil_bit
coil_position_lem a i hb hs = ((λ e. omega arith), (λ lt. omega arith))

-- The latest value that a call wrote to a bit of the process image.
abbrev pub latest_bit : History → (address bit : ℕ) → Option ℕ
latest_bit [] address bit = none
latest_bit (e ∷ h) address bit = bit_after e.call (latest_bit h address bit)
  where
    bit_after : Call → Option ℕ → Option ℕ
    bit_after (pi_set_bit address' bit' v) before =
        if address' == address && bit' == bit then some v else before
    bit_after c before = before

module _ (env : Env) (a : ModbusAction) where
  -- One round of each loop.
  pub set_bits-suc :
      (buf : List ℕ) (n i : ℕ) (s : ℤ) (h : History)
      → i < length buf
      → let c = pi_set_bit (coil_byte a i) (coil_bit a i) (get_or buf i 0) in
        let r = env.answer h c in
        set_bits env a buf (suc n) i s h ≡ (
          if is_neg r.ret
          then done r.ret (record { call = c; reply = r } ∷ h)
          else set_bits env a buf n (i + 1) r.ret (record { call = c; reply = r } ∷ h))
  unfolding set_bits
  set_bits-suc buf n i s h lt = ground (arith, get_elem?-eq-get_or buf i 0 lt)

  pub get_bits-suc :
      (buf : List ℕ) (n i : ℕ) (s : ℤ) (h : History)
      → i < length buf
      → let c = pi_get_bit (coil_byte a i) (coil_bit a i) in
        let r = env.answer h c in
        get_bits env a buf (suc n) i s h ≡ (
          if is_neg r.ret
          then done (r.ret, buf) (record { call = c; reply = r } ∷ h)
          else get_bits env a
              (set buf i (get_or r.out 0 0))
              n
              (i + 1)
              r.ret
              (record { call = c; reply = r } ∷ h))
  unfolding get_bits
  get_bits-suc buf n i s h lt = ground arith

-- The position of the i-th coil, in the history.
abbrev pub latest_coil : ModbusAction → History → ℕ → Option ℕ
latest_coil a h i = latest_bit h (coil_byte a i) (coil_bit a i)

-- The process image takes every bit.
abbrev pub TakesBits : Env → Type 0
TakesBits env =
    (h : History) (address bit v : ℕ) → is_neg (env.answer h (pi_set_bit address bit v)).ret ≡ false

module _ (env : Env) (a : ModbusAction) (buf : List ℕ) (takes : TakesBits env) where
  -- The coils from the i-th to before the end are as in the buffer, those before as they were.
  abbrev pub Stored : (i end : ℕ) → History → History → Type 0
  Stored i end h h' =
      (j : ℕ)
      → j < end
      → latest_coil a h' j ≡ (if ltb j i then latest_coil a h j else some (get_or buf j 0))

  latest_coil-set :
      (h : History) (i j v : ℕ)
      → i < 2 ^ 19
      → j < 2 ^ 19
      → latest_coil a (followed_by env (pi_set_bit (coil_byte a i) (coil_bit a i) v) h) j
        ≡ (if i == j then some v else latest_coil a h j)
  latest_coil-set h i j v hi hj = elim (Bool-cases (i == j)) [
    | inl same ↦ ground arith
    | inr other ↦ ground (arith, coil-injective a i j)
  ]

  pub set_bits-Stored :
      (n i end : ℕ) (s : ℤ) (h : History)
      → i + n ≡ end
      → end ≤ length buf
      → end ≤ 2 ^ 19
      → Returns (λ s' h'. Stored i end h h') (set_bits env a buf n i s h)
  unfolding set_bits
  set_bits-Stored zero i end s h e fits small = λ j lt. ground arith
  set_bits-Stored (suc n) i end s h e fits small =
      let c = pi_set_bit (coil_byte a i) (coil_bit a i) (get_or buf i 0) in
      rw
        (
          set_bits-suc env a buf n i s h (omega arith),
          takes h (coil_byte a i) (coil_bit a i) (get_or buf i 0),
        )
        (Returns-mono (λ s' h'. Stored (i + 1) end (followed_by env c h) h')
          (λ s' h'. Stored i end h h')
          (set_bits env a buf n (i + 1) (env.answer h c).ret (followed_by env c h))
          (set_bits-Stored n (i + 1) end (env.answer h c).ret (followed_by env c h) (omega arith)
            fits small)
          λ s' h' stored j lt.
            let hi : i < 2 ^ 19 = omega arith in
            let hj : j < 2 ^ 19 = omega arith in
            ground (arith, stored j lt, latest_coil-set h i j (get_or buf i 0) hi hj))
