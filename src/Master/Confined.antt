-- ===== src/Master/Confined.antt =====
-- The calls of one event, and of the rounds, of both loops of src/ModbusMasterThread.c.
use revpi_modbus.External.Reasoning.{Returns-mono, Returns}
use revpi_modbus.Scheduler.{SchedulerEvent}
use revpi_modbus.Prelude.{
  length, refl, ◌==◌, get_or, ◌||◌, sym, subst, ◌^◌, ◌∙◌, ◌%◌, [], inr, inl, ◌≡◌, ◌∷◌, Bool-cases,
  All, List, ℕ,
}
use revpi_modbus.Master.{reconnect, again, reset_all, MasterDevice, Round}
use revpi_modbus.External.{
  pi_set_bit, call, ◌>>=◌, branch, mutex_unlock, pi_write, followed_by, get_errno, mutex_lock,
  pi_get_bit, Reply, History, IsDocumented, Call, Env,
}
use revpi_modbus.Prelude.Int.{ℤ, is_neg}
use revpi_modbus.Config.{ModbusAction, max_register_size_per_action}
use revpi_modbus.Processor.Scope.{Extends, start, after}
use revpi_modbus.Processor.{process_modbus_action, reset_modbus_action_status, retry_pause}
use revpi_modbus.Processor.Safety.{Completed, paused, reported, process_modbus_action_lem}
use revpi_modbus.Master.Scope.{
  IsStatus, Serves, OfDevice, Extends-trans, Extends-mono, Confined, Confined-bind,
}
use revpi_modbus.Master.Events.{CanProcess}

-- A set of calls that contains those for a device, and those that serve an action.
abbrev pub HasDevice : (Call → Type 0) → MasterDevice → Type 0
HasDevice P d = (c : Call) → OfDevice d c → P c

abbrev pub HasAction : (Call → Type 0) → ModbusAction → Type 0
HasAction P a = (c : Call) → Serves a c → P c

-- The actions of a queue, and of the queue after a round.
abbrev pub AreServed : (Call → Type 0) → List SchedulerEvent → Type 0
AreServed P q = All (λ (e : SchedulerEvent). HasAction P e.action) q

abbrev pub RoundServes : (Call → Type 0) → Round → Type 0
RoundServes P (again s) = AreServed P s.queue
RoundServes P (reconnect buf) = Unit

module _ (env : Env) (P : Call → Type 0) where
  pub reset-Confined :
      (r b s : ℕ) (h : History)
      → ((c : Call) → IsStatus r b s c → P c)
      → Returns (Confined P (λ v. Unit {0}) h) (reset_modbus_action_status env r b s h)
  unfolding reset_modbus_action_status
  reset-Confined r b s h status =
      elim (Bool-cases (is_neg asked.ret || get_or asked.out 0 0 == 0)) [
        | inl stays ↦ rw (stays, branch, Returns) (tt, own₁)
        | inr set ↦ elim (Bool-cases (is_neg cleared.ret)) [
          | inl failed ↦ rw (set, branch, ◌>>=◌, call, failed, Returns) (tt, own₂)
          | inr fine ↦
              rw (set, branch, ◌>>=◌, call, fine, Returns)
                (tt, after _ (status (pi_set_bit (r % 2 ^ 16) b 0) (refl, refl, refl)) own₂)
        ]
      ]
    where
      asked : Reply
      asked = env.answer h (pi_get_bit (r % 2 ^ 16) b)

      h₁ : History
      h₁ = followed_by env (pi_get_bit (r % 2 ^ 16) b) h

      cleared : Reply
      cleared = env.answer h₁ (pi_write s 1 (0 ∷ []))

      own₁ : Extends P h h₁
      own₁ = after _ (status (pi_get_bit (r % 2 ^ 16) b) (refl, refl)) start

      own₂ : Extends P h (followed_by env (pi_write s 1 (0 ∷ [])) h₁)
      own₂ = after _ (status (pi_write s 1 (0 ∷ [])) (refl, refl, refl)) own₁

  pub reset_all-Confined :
      (q : List SchedulerEvent) (h : History)
      → AreServed P q
      → Returns (Confined P (λ v. Unit {0}) h) (reset_all env q h)
  unfolding reset_all
  reset_all-Confined [] h serves = (tt, start)
  reset_all-Confined (e ∷ rest) h (own, serves) =
      Confined-bind P (λ v. Unit {0}) (λ v. Unit {0})
        (reset_modbus_action_status env e.action.reset_status_byte_offset
          e.action.reset_status_bit_offset e.action.status_byte_offset)
        (λ a. reset_all env rest) h
        (reset-Confined e.action.reset_status_byte_offset e.action.reset_status_bit_offset
          e.action.status_byte_offset h λ c st. own c (inr (inl st)))
        λ v h' u. reset_all-Confined rest h' serves

module _ (env : Env) (P : Call → Type 0) (d : MasterDevice) (device : HasDevice P d) where
  -- The pause and the report that may follow a transfer, and the release of the lock.
  paused-Extends : (s : ℤ) (h : History) → Extends P h (paused env s h)
  paused-Extends s h = elim (Bool-cases (is_neg s)) [
    | inl failed ↦ rw failed (after _ (device retry_pause (inr tt)) start)
    | inr fine ↦ rw fine start
  ]

  reported-Extends :
      (a : ModbusAction) (len : ℤ) (h : History)
      → HasAction P a
      → Extends P h (reported env a len h)
  reported-Extends a len h own = elim (Bool-cases (is_neg len)) [
    | inl failed ↦
        rw failed (
          after _ (own _ (inr (inl (refl, refl, refl))))
            (after _ (device get_errno (inr tt)) start))
    | inr fine ↦ rw fine start
  ]

  pub process_modbus_action-Confined :
      (doc : IsDocumented env) (a : ModbusAction) (buf : List ℕ) (h : History)
      → CanProcess env a
      → length buf ≡ max_register_size_per_action
      → HasAction P a
      → Returns
          (Confined P (λ (r : ℤ × List ℕ). length r.1 ≡ max_register_size_per_action) h)
          (process_modbus_action env a buf h)
  process_modbus_action-Confined doc a buf h can size own =
      Returns-mono (Completed env a buf h)
        (Confined P (λ (r : ℤ × List ℕ). length r.1 ≡ max_register_size_per_action) h)
        (process_modbus_action env a buf h)
        (process_modbus_action_lem env a buf h doc (record { size = size; count = can.0 }) can.1)
        λ r h' c.
          let moved =
            Extends-trans (after _ (device mutex_lock (inr tt)) start)
              (Extends-mono (λ c b. own c (inl b)) c.own) in
          let told =
            Extends-trans (Extends-trans moved (paused-Extends c.successful c.moved))
              (reported-Extends a r.0 (paused env c.successful c.moved) own) in
          (
            c.size ∙ size,
            subst (Extends P h) (sym c.shape) (after _ (device mutex_unlock (inr tt)) told),
          )
