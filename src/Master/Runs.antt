-- ===== src/Master/Runs.antt =====
-- A master's thread as a whole, over TCP and over RTU.
use revpi_modbus.Processor.Scope.{start, after, Extends}
use revpi_modbus.Master.Scope.{IsContext, Confined-from, OfMaster}
use revpi_modbus.Master.Confined.{HasDevice}
use revpi_modbus.Master.Prepared.{empty_buffer, empty_size}
use revpi_modbus.Master.Permitted.{
  tcp_connections-Confined, tcp_master_thread-Confined, rtu_master_thread-Confined,
  OfMaster-HasActions,
}
use revpi_modbus.Scheduler.Offset.{Double}
use revpi_modbus.Scheduler.Quarter.{IsIeee}
use revpi_modbus.Prelude.{
  refl, inr, inl, ◌<◌, length, ℕ, ◌≡◌, ◌≢◌, true, false, List, [], ◌∷◌, All, Bool, arith,
}
use revpi_modbus.Prelude.Int.{is_neg, is_zero}
use revpi_modbus.Config.{ModbusAction}
use revpi_modbus.Scheduler.Start.{AllocatesAll}
use revpi_modbus.External.{
  Call, ◌>>=◌, call, branch, modbus_set_error_recovery, set_priority, modbus_new, followed_by, Env,
  History, IsDocumented,
}
use revpi_modbus.External.Reasoning.{Returns}
use revpi_modbus.Processor.{accepts}
use revpi_modbus.Parser.Actions.{ActionIsParsed}
use revpi_modbus.Slave.Threads.{waiting, cancelled}
use revpi_modbus.Slave.Released.{IsThere}
use revpi_modbus.Master.{MasterDevice}
use revpi_modbus.Master.Events.{ClockIsNormal}
use revpi_modbus.Master.Threads.{tcp_connections, tcp_master_thread, rtu_master_thread}

pub positive-length : {A : Type 0} (xs : List A) → xs ≢ [] → 0 < length xs
positive-length [] ne = absurd (ne refl)
positive-length (x ∷ xs) ne = omega arith

module _ (env : Env) (doc : IsDocumented env) (clock : ClockIsNormal env) (d : MasterDevice)
    (malloc : ℕ → Bool) (actions : List ModbusAction) (some_actions : actions ≢ [])
    (parsed : All ActionIsParsed actions) (accepted : All (λ a. accepts env a ≡ true) actions)
    (memory : AllocatesAll malloc 0 actions) (n : ℕ) where
  -- Every call after a history is for the device, concerns the context, or serves one of the actions.
  abbrev pub KeepsToActions : History → History → Type 0
  KeepsToActions h h' = Extends (OfMaster d actions) h h'

  prop : (c : Call) → IsProp (OfMaster d actions c)
  prop c = squash₁

  device : HasDevice (OfMaster d actions) d
  device c o = ∣ inl o ∣₁

  context : (c : Call) → IsContext c → OfMaster d actions c
  context c o = ∣ inr (inl o) ∣₁

  module _ (double : Double) (ieee : IsIeee double) where
    -- A master over TCP from its start to its end, with documented libraries, a normalised clock,
    -- memory for its events, doubles as IEEE 754 has them, and at least one parsed action, each
    -- with a register count that one request holds: once its priority is set and its context is
    -- made, it never ends by itself. Whichever calls fail, and however many connections are lost
    -- and made anew, no assertion fails and no access leaves the buffer, until it is cancelled; and
    -- each of its calls is for its device, concerns its context, or serves one of its actions.
    pub tcp_master_thread_lem :
        (k : ℕ) (h : History)
        → is_neg (env.answer h set_priority).ret ≡ false
        → is_zero (env.answer (followed_by env set_priority h) modbus_new).ret ≡ false
        → Returns
            (λ s h'. (s ≡ cancelled) × KeepsToActions h h')
            (tcp_master_thread env malloc double d actions n k h)
    unfolding tcp_master_thread
    tcp_master_thread_lem k h priority made =
        let h₁ = followed_by env set_priority h in
        let h₂ = followed_by env modbus_new h₁ in
        let h₃ = followed_by env modbus_set_error_recovery h₂ in
        rw (tcp_master_thread, ◌>>=◌, call, priority, made, branch)
          (Confined-from (OfMaster d actions) (λ s. s ≡ cancelled) h h₃
            (tcp_connections env malloc double d actions n k empty_buffer h₃)
            (after _ (device modbus_set_error_recovery (inr tt)) (
              after _ (context modbus_new (inl refl))
                (after _ (device set_priority (inr tt)) start)))
            (tcp_connections-Confined env (OfMaster d actions) prop d device context doc clock
              malloc actions some_actions parsed accepted memory (OfMaster-HasActions d actions) n
              double ieee k empty_buffer h₃ empty_size))

    -- The same, where its priority or its context may fail.
    pub tcp_master_thread-ends :
        (k : ℕ) (h : History)
        → Returns
            (λ s h'. (s ≢ waiting) × KeepsToActions h h')
            (tcp_master_thread env malloc double d actions n k h)
    tcp_master_thread-ends =
        tcp_master_thread-Confined env (OfMaster d actions) prop d device context doc clock malloc
          actions some_actions parsed accepted memory (OfMaster-HasActions d actions) n double ieee

  -- A master over RTU from its start to its end, with documented libraries, a normalised clock,
  -- memory for its events and at least one parsed action, each with a register count that one
  -- request holds, and a count of them that is not 0: its device is there at the try `k`, and more
  -- tries than `k` are made. Then it does not wait for ever, and whichever calls fail, and however
  -- many events it processes, no assertion fails and no access leaves the buffer, until it exits or
  -- is cancelled; and each of its calls is for its device, concerns its context, or serves one of its
  -- actions.
  pub rtu_master_thread_lem :
      (count : ℕ)
      → 0 < count
      → (k w : ℕ) (h : History) → k < w
      → IsThere env k h
      → Returns
          (λ s h'. (s ≢ waiting) × KeepsToActions h h')
          (rtu_master_thread env malloc d actions count n w h)
  rtu_master_thread_lem =
      rtu_master_thread-Confined env (OfMaster d actions) prop d device context doc clock malloc
        actions some_actions parsed accepted memory (OfMaster-HasActions d actions) n
