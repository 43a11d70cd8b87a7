-- ===== src/Master/Released.antt =====
-- What a master's thread makes and releases: the context of libmodbus, of src/ModbusMasterThread.c.
use revpi_modbus.Slave.Threads.{waiting, ThreadState, cancelled}
use revpi_modbus.Master.Threads.{exit_with, close_master}
use revpi_modbus.Prelude.{[], ◌∷◌, arith, refl, inr, inl, ℕ, ◌≢◌, Bool-cases}
use revpi_modbus.Prelude.Int.{is_zero, is_neg}
use revpi_modbus.Config.{no_device, internal_error, ModbusAction}
use revpi_modbus.External.{
  modbus_close, pi_write, event, ◌>>◌, modbus_set_error_recovery, modbus_mapping_free, set_priority,
  pure, modbus_new, M, modbus_mapping_new, Reply, modbus_free, ◌>>=◌, call, branch, followed_by,
  Call, Env, History,
}
use revpi_modbus.External.Reasoning.{Returns}
use revpi_modbus.Processor.{write_error_message}
use revpi_modbus.Processor.Scope.{start, after, Extends}
use revpi_modbus.Master.{MasterDevice}
use revpi_modbus.Master.Confined.{HasDevice, HasAction}
use revpi_modbus.Slave.Resources.{Owes, Owes-Same, Same-Extends, IsQuiet}

-- A call that makes and releases nothing, whatever the answer.
abbrev pub IsSilent : Call → Type 0
IsSilent c = (r : Reply) → IsQuiet (record { call = c; reply = r })

pub IsSilent-prop : (c : Call) → IsProp (IsSilent c)
IsSilent-prop c = hlevel

pub OfDevice-IsSilent : (d : MasterDevice) → HasDevice IsSilent d
OfDevice-IsSilent d modbus_new o r = elim o [ inl x ↦ absurd x | inr x ↦ absurd x ]
OfDevice-IsSilent d modbus_free o r = elim o [ inl x ↦ absurd x | inr x ↦ absurd x ]
OfDevice-IsSilent d (modbus_mapping_new a b i n) o r = elim o [
  | inl x ↦ absurd x
  | inr x ↦ absurd x
]
OfDevice-IsSilent d modbus_mapping_free o r = elim o [ inl x ↦ absurd x | inr x ↦ absurd x ]
OfDevice-IsSilent d _ o r = (refl, refl, refl, refl)

pub Serves-IsSilent : (a : ModbusAction) → HasAction IsSilent a
Serves-IsSilent a modbus_new o r = elim o [
  | inl x ↦ absurd x
  | inr x ↦ elim x [ inl y ↦ absurd y | inr e ↦ cc ]
]
Serves-IsSilent a modbus_free o r = elim o [
  | inl x ↦ absurd x
  | inr x ↦ elim x [ inl y ↦ absurd y | inr e ↦ cc ]
]
Serves-IsSilent a (modbus_mapping_new b i j n) o r = elim o [
  | inl x ↦ absurd x
  | inr x ↦ elim x [ inl y ↦ absurd y | inr e ↦ cc ]
]
Serves-IsSilent a modbus_mapping_free o r = elim o [
  | inl x ↦ absurd x
  | inr x ↦ elim x [ inl y ↦ absurd y | inr e ↦ cc ]
]
Serves-IsSilent a _ o r = (refl, refl, refl, refl)

pub Owes-refl : (h : History) → Owes 0 0 h h
Owes-refl h = record { mappings = omega arith; contexts = omega arith }

-- A thread ended, and has released the context exactly as often as it made one.
abbrev pub HasReleased : History → ThreadState → History → Type 0
HasReleased h s h' = (s ≢ waiting) × Owes 0 0 h h'

pub Owes-Confined :
    (m c : ℕ) (h₀ h h' : History) → Owes m c h₀ h → Extends IsSilent h h' → Owes m c h₀ h'
Owes-Confined m c h₀ h h' o own =
    Owes-Same m c h₀ h h' o (Same-Extends IsSilent h h' (λ k r s. s r) own)

module _ (env : Env) (h₀ h : History) where
  -- What is owed after a call that makes and releases nothing, and after the context is released.
  pub Owes-silent :
      (m n : ℕ) (c : Call) → IsSilent c → Owes m n h₀ h → Owes m n h₀ (followed_by env c h)
  Owes-silent m n c silent o =
      Owes-Confined m n h₀ h (followed_by env c h) o (after (event env c h) silent start)

  pub Owes-free : Owes 0 1 h₀ h → Owes 0 0 h₀ (followed_by env modbus_free h)
  Owes-free o = record {
    mappings = omega (arith, o.mappings);
    contexts = omega (arith, o.contexts);
  }

module _ (env : Env) (d : MasterDevice) where
  pub closed_lem :
      (h₀ h : History)
      → Owes 0 1 h₀ h
      → Returns (HasReleased h₀) ((close_master env >>= λ u. pure cancelled) h)
  unfolding close_master
  closed_lem h₀ h o =
      let h₁ = followed_by env modbus_close h in
      (
        (λ e. cc),
        Owes-free env h₀ h₁
            (Owes-silent env h₀ h 0 1 modbus_close (OfDevice-IsSilent d modbus_close (inr tt)) o),
      )

  pub exit_with_lem :
      (error : ℕ) (h₀ h : History)
      → Owes 0 0 h₀ h
      → Returns (HasReleased h₀) (exit_with env d.status_byte error h)
  unfolding exit_with write_error_message
  exit_with_lem error h₀ h o = (
    (λ e. cc),
    Owes-silent env h₀ h 0 0 (pi_write d.status_byte 1 (error ∷ [])) (λ r. (refl, refl, refl, refl))
        o,
  )

  pub prepared_lem :
      (body : M ThreadState) (h₀ h : History)
      → Owes 0 0 h₀ h
      → ((h' : History) → Owes 0 1 h₀ h' → Returns (HasReleased h₀) (body h'))
      → Returns (HasReleased h₀) (
          (call env set_priority >>= λ p.
          branch (is_neg p.ret) (exit_with env d.status_byte internal_error) (
            call env modbus_new >>= λ x.
            branch
              (is_zero x.ret)
              (exit_with env d.status_byte no_device)
              (call env modbus_set_error_recovery >> body)))
            h)
  prepared_lem body h₀ h o k =
      let h₁ = followed_by env set_priority h in
      let h₂ = followed_by env modbus_new h₁ in
      let h₃ = followed_by env modbus_set_error_recovery h₂ in
      elim (Bool-cases (is_neg (env.answer h set_priority).ret)) [
        | inl failed ↦
            rw (failed, branch)
              (exit_with_lem internal_error h₀ h₁ (
                Owes-silent env h₀ h 0 0 set_priority (OfDevice-IsSilent d set_priority (inr tt))
                  o))
        | inr fine ↦ elim (Bool-cases (is_zero (env.answer h₁ modbus_new).ret)) [
          | inl failed ↦
              rw (fine, failed, branch)
                (exit_with_lem no_device h₀ h₂ (record {
                  mappings = omega (arith, o.mappings);
                  contexts = rw failed (omega (arith, o.contexts));
                }))
          | inr made ↦
              rw (fine, made, branch)
                (k h₃ (record {
                  mappings = omega (arith, o.mappings);
                  contexts = rw made (omega (arith, o.contexts));
                }))
        ]
      ]
