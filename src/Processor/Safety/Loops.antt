-- ===== src/Processor/Safety/Loops.antt =====
-- The loops over coils, and what a read delivers, stay inside the buffer and inside the action's own
-- data.
use revpi_modbus.Processor.Coils.{set_bits-suc, get_bits-suc}
use revpi_modbus.Prelude.{
  ◌*◌, length-take, le→leb, ◌∙◌, length-set, set, true, leb, ℕ, zero, suc, ◌+◌, ◌≤◌, ◌≡◌, refl,
  List, length, ◌∷◌, get_or, Bool-cases, inl, inr, arith,
}
use revpi_modbus.Prelude.Int.{pos, ℤ, is_neg}
use revpi_modbus.Config.{ModbusAction}
use revpi_modbus.External.{
  event, filled, room, pi_get_bit, Call, Env, Event, History, IsDocumented, pi_set_bit,
}
use revpi_modbus.External.Reasoning.{Returns-bind, length-fill, Returns}
use revpi_modbus.Processor.{
  bytes_delivered, bits_delivered, Transfer, get_bits, set_bits, coil_byte, coil_bit,
}
use revpi_modbus.Processor.Scope.{start, IsCoil, BelongsTo, Extends, after}

module _ (env : Env) (doc : IsDocumented env) (a : ModbusAction) where
  abbrev pub Own : History → History → Type 0
  Own h h' = Extends (BelongsTo a) h h'

  pub coil : (i n : ℕ) → i + suc n ≤ a.register_count → IsCoil a (coil_byte a i) (coil_bit a i)
  coil i n le = record { index = i; in_range = omega arith; at_byte = refl; at_bit = refl }

  pub set_bits-Own :
      (h₀ : History) (buf : List ℕ) (n i : ℕ) (s : ℤ) (h : History)
      → a.register_count ≤ length buf
      → i + n ≤ a.register_count
      → Own h₀ h
      → Returns (λ r h'. Own h₀ h') (set_bits env a buf n i s h)
  unfolding set_bits
  set_bits-Own h₀ buf zero i s h fits le own = own
  set_bits-Own h₀ buf (suc n) i s h fits le own =
      let c = pi_set_bit (coil_byte a i) (coil_bit a i) (get_or buf i 0) in
      let r = env.answer h c in
      let e : Event = record { call = c; reply = r } in
      let own' : Own h₀ (e ∷ h) = after e (coil i n le) own in
      rw (set_bits-suc env a buf n i s h (omega arith)) (elim (Bool-cases (is_neg r.ret)) [
        | inl failed ↦ rw failed own'
        | inr more ↦ rw more (set_bits-Own h₀ buf n (i + 1) r.ret (e ∷ h) fits (omega arith) own')
      ])

  -- A loop or a case kept the length of the buffer, and made only calls of the action.
  abbrev pub Kept : ℕ → History → List ℕ → History → Type 0
  Kept size h₀ buf h = (length buf ≡ size) × Own h₀ h

  pub get_bits-Own :
      (size : ℕ) (h₀ : History) (buf : List ℕ) (n i : ℕ) (s : ℤ) (h : History)
      → a.register_count ≤ size
      → i + n ≤ a.register_count
      → Kept size h₀ buf h
      → Returns (λ r h'. Kept size h₀ r.1 h') (get_bits env a buf n i s h)
  unfolding get_bits
  get_bits-Own size h₀ buf zero i s h fits le kept = kept
  get_bits-Own size h₀ buf (suc n) i s h fits le (same, own) =
      let c = pi_get_bit (coil_byte a i) (coil_bit a i) in
      let r = env.answer h c in
      let e : Event = record { call = c; reply = r } in
      let own' : Own h₀ (e ∷ h) = after e (coil i n le) own in
      rw (get_bits-suc env a buf n i s h (omega arith)) (elim (Bool-cases (is_neg r.ret)) [
        | inl failed ↦ rw failed (same, own')
        | inr more ↦ rw more (
            get_bits-Own size h₀ (set buf i (get_or r.out 0 0)) n (i + 1) r.ret (e ∷ h) fits
              (omega arith) (length-set buf i (get_or r.out 0 0) ∙ same, own'))
      ])

  -- What every case of the switch ensures.
  abbrev pub Ensures : List ℕ → History → Transfer → History → Type 0
  Ensures buf h t h' = Kept (length buf) h t.buffer h'

  pub filled-Kept :
      (c : Call) (buf : List ℕ) (h : History)
      → BelongsTo a c
      → room c ≤ length buf
      → Kept (length buf) h (filled buf (env.answer h c)) (event env c h ∷ h)
  filled-Kept c buf h own fits =
      let le = doc.fits h c in
      (length-fill buf (env.answer h c).out (omega arith), after (event env c h) own start)

  pub filled-eq :
      (c : Call) (buf : List ℕ) (h : History)
      → room c ≤ length buf
      → leb (length (env.answer h c).out) (length buf) ≡ true
  filled-eq c buf h fits = let le = doc.fits h c in le→leb _ _ (omega arith)

  pub bits_delivered-Own :
      (size : ℕ) (len : ℤ) (h₀ : History) (buf : List ℕ) (h : History)
      → a.register_count ≤ size
      → Kept size h₀ buf h
      → Returns (λ t h'. Kept size h₀ t.buffer h') (bits_delivered env a len buf h)
  unfolding bits_delivered
  bits_delivered-Own size len h₀ buf h fits (same, own) =
      Returns-bind (λ s h'. Own h₀ h') _ (set_bits env a buf a.register_count 0 (pos 0)) _ h
        (set_bits-Own h₀ buf a.register_count 0 (pos 0) h (omega arith) (omega arith) own)
        (λ s h' own'. (same, own'))

  pub bytes_delivered-Own :
      (size bytes : ℕ) (len : ℤ) (h₀ : History) (buf : List ℕ) (h : History)
      → bytes ≤ 2 * a.register_count
      → bytes ≤ size
      → Kept size h₀ buf h
      → Returns (λ t h'. Kept size h₀ t.buffer h') (bytes_delivered env a bytes len buf h)
  unfolding bytes_delivered
  bytes_delivered-Own size bytes len h₀ buf h few fits (same, own) =
      let le : bytes ≤ length buf = omega arith in
      rw (le→leb bytes (length buf) le, Returns)
        (same, after _ (refl, few, omega (arith, length-take bytes buf)) own)
