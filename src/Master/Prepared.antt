-- ===== src/Master/Prepared.antt =====
-- What both threads of src/ModbusMasterThread.c have in common, and the calls that it makes.
use revpi_modbus.Slave.Threads.{waiting, ThreadState, wait_for_device}
use revpi_modbus.Master.Threads.{close_master, exit_with}
use revpi_modbus.Prelude.{
  length, length-replicate, replicate, ◌≡◌, List, zero, suc, refl, inr, inl, ℕ, ◌≢◌, Bool-cases, [],
  ◌∷◌,
}
use revpi_modbus.Prelude.Int.{is_zero, is_neg}
use revpi_modbus.External.{
  ◌>>◌, M, sleep_for, modbus_set_error_recovery, device_access, modbus_close, modbus_new,
  modbus_free, set_priority, pure, ◌>>=◌, call, branch, pi_write, followed_by, Call, Env, History,
}
use revpi_modbus.External.Reasoning.{Returns}
use revpi_modbus.Processor.{write_error_message}
use revpi_modbus.Processor.Scope.{Extends, start, after}
use revpi_modbus.Master.{MasterDevice}
use revpi_modbus.Master.Scope.{IsContext, Confined, Confined-from}
use revpi_modbus.Master.Confined.{HasDevice}
use revpi_modbus.Config.{max_register_size_per_action, internal_error, no_device}

-- The buffer that a thread starts with.
abbrev pub empty_buffer : List ℕ
empty_buffer = replicate max_register_size_per_action 0

pub empty_size : length empty_buffer ≡ max_register_size_per_action
empty_size = length-replicate {A = ℕ} max_register_size_per_action 0

-- A thread that ended, and did not wait for ever.
abbrev pub HasEnded : ThreadState → Type 0
HasEnded s = s ≢ waiting

module _ (env : Env) (P : Call → Type 0) (d : MasterDevice) (device : HasDevice P d)
    (context : (c : Call) → IsContext c → P c) where
  pub close_master-Confined :
      (Q : ThreadState → Type 0) (s : ThreadState) (h : History)
      → Q s
      → Returns (Confined P Q h) ((close_master env >>= λ u. pure s) h)
  unfolding close_master
  close_master-Confined Q s h ended = (
    ended,
    after _ (context modbus_free (inr refl)) (after _ (device modbus_close (inr tt)) start),
  )

  pub exit_with-Confined :
      (error : ℕ) (h₀ h : History)
      → Extends P h₀ h
      → Returns (Confined P HasEnded h₀) (exit_with env d.status_byte error h)
  unfolding exit_with write_error_message
  exit_with-Confined error h₀ h own = (
    (λ e. cc),
    after _ (device (pi_write d.status_byte 1 (error ∷ [])) (inl (refl, refl, refl))) own,
  )

  -- What both threads do before they connect.
  pub prepared-Confined :
      (body : M ThreadState) (h : History)
      → ((h' : History) → Returns (Confined P HasEnded h') (body h'))
      → Returns (Confined P HasEnded h) (
          (call env set_priority >>= λ p.
          branch (is_neg p.ret) (exit_with env d.status_byte internal_error) (
            call env modbus_new >>= λ x.
            branch
              (is_zero x.ret)
              (exit_with env d.status_byte no_device)
              (call env modbus_set_error_recovery >> body)))
            h)
  prepared-Confined body h k =
      let h₁ = followed_by env set_priority h in
      let h₂ = followed_by env modbus_new h₁ in
      let h₃ = followed_by env modbus_set_error_recovery h₂ in
      let own₁ : Extends P h h₁ = after _ (device set_priority (inr tt)) start in
      let own₂ : Extends P h h₂ = after _ (context modbus_new (inl refl)) own₁ in
      elim (Bool-cases (is_neg (env.answer h set_priority).ret)) [
        | inl failed ↦ rw (failed, branch) (exit_with-Confined internal_error h h₁ own₁)
        | inr fine ↦ elim (Bool-cases (is_zero (env.answer h₁ modbus_new).ret)) [
          | inl failed ↦ rw (fine, failed, branch) (exit_with-Confined no_device h h₂ own₂)
          | inr made ↦
              rw (fine, made, branch)
                (Confined-from P HasEnded h h₃ (body h₃)
                  (after _ (device modbus_set_error_recovery (inr tt)) own₂) (k h₃))
        ]
      ]

  pub wait_for_device-Confined :
      (w : ℕ) (h : History) → Returns (Confined P (λ there. Unit {0}) h) (wait_for_device env w h)
  unfolding wait_for_device
  wait_for_device-Confined zero h = (tt, start)
  wait_for_device-Confined (suc w) h =
      elim (Bool-cases (is_zero (env.answer h device_access).ret)) [
        | inl now ↦ rw (now, branch, Returns) (tt, after _ (device device_access (inr tt)) start)
        | inr later ↦
            rw (later, branch)
              (Confined-from P (λ there. Unit {0}) h _ (wait_for_device env w _)
                (after _ (device (sleep_for (record { tv_sec = 1; tv_nsec = 0 })) (inr tt))
                  (after _ (device device_access (inr tt)) start))
                (wait_for_device-Confined w _))
      ]
