-- ===== src/Master/Events.antt =====
-- One event of each loop of src/ModbusMasterThread.c.
use revpi_modbus.Scheduler.Clock.{timespec_add-eq}
use revpi_modbus.Prelude.{
  refl, ltb→lt, arith, ◌+◌, ltb, ◌⊎◌, ◌∙◌, ℕ, ◌≤◌, ◌≡◌, inl, inr, true, List, [], ◌∷◌, length, All,
  Bool-cases, ◌≢◌, ◌||◌, ◌==◌, get_or, ◌%◌, ◌^◌,
}
use revpi_modbus.Prelude.Int.{ℤ, is_neg}
use revpi_modbus.Config.{ModbusAction, max_register_size_per_action}
use revpi_modbus.Scheduler.{Timespec, IsNormal, SchedulerEvent, ModbusEvent}
use revpi_modbus.Scheduler.Order.{QueueIsValid}
use revpi_modbus.External.{
  call, pi_write, pi_get_bit, Reply, sleep_until, modbus_set_slave, Env, History, IsDocumented,
  clock_gettime, followed_by, branch, ◌>>=◌,
}
use revpi_modbus.External.Reasoning.{Returns, Returns-bind}
use revpi_modbus.Processor.{
  reset_modbus_master_status, accepts, process_modbus_action, reset_modbus_action_status,
}
use revpi_modbus.Processor.Safety.{Completed, process_modbus_action_lem}
use revpi_modbus.Master.{
  rtu_event, reconnect, again, tcp_event, tcp_result, Round, MasterDevice, MasterState, max_errors,
  process_event, reset_all,
}

-- The clock gives normalised times.
abbrev pub ClockIsNormal : Env → Type 0
ClockIsNormal env = (h : History) → IsNormal (env.answer h clock_gettime).time

-- An action that the action processor can take.
abbrev pub CanProcess : Env → ModbusAction → Type 0
CanProcess env a = (a.register_count ≤ max_register_size_per_action) × (accepts env a ≡ true)

-- The state of a master between two rounds.
pub record MasterIsValid (env : Env) (s : MasterState) : Type 0 where
  pub nonempty : s.queue ≢ []
  pub valid : QueueIsValid s.queue
  pub can_process : All (λ (e : SchedulerEvent). CanProcess env e.action) s.queue
  pub size : length s.buffer ≡ max_register_size_per_action
  pub few_errors : s.err_cnt ≤ max_errors

module _ (env : Env) (doc : IsDocumented env) (clock : ClockIsNormal env) (d : MasterDevice)
    (offset : Timespec) (normal : IsNormal offset) where
  -- What is left of an event: the buffer has its length.
  process_event_lem :
      (ev : ModbusEvent) (s : MasterState) (h : History)
      → CanProcess env ev.action
      → length s.buffer ≡ max_register_size_per_action
      → Returns
          (λ (r : ℤ × Timespec × List ℕ) h'. length r.2 ≡ max_register_size_per_action)
          (process_event env ev offset s h)
  unfolding process_event
  process_event_lem ev s h can size =
      Returns-bind (Completed env ev.action s.buffer h₃)
        (λ (r : ℤ × Timespec × List ℕ) h'. length r.2 ≡ max_register_size_per_action)
        (process_modbus_action env ev.action s.buffer) _ h₃
        (process_modbus_action_lem env ev.action s.buffer h₃ doc
          (record { size = size; count = can.0 }) can.1)
        λ r h' done'.
          rw (timespec_add-eq (env.answer h' clock_gettime).time offset (clock h') normal, Returns)
            (done'.size ∙ size)
    where
      h₃ : History
      h₃ = followed_by env (modbus_set_slave ev.action.slave_address) (
          followed_by env (sleep_until s.earliest_next_trigger_time)
            (followed_by env (sleep_until ev.trigger_time) h))

  reset-Returns :
      (reset_byte reset_bit status_byte : ℕ) (h : History)
      → Returns
          (λ r h'. Unit {0})
          (reset_modbus_action_status env reset_byte reset_bit status_byte h)
  unfolding reset_modbus_action_status
  reset-Returns reset_byte reset_bit status_byte h =
      elim (Bool-cases (is_neg asked.ret || get_or asked.out 0 0 == 0)) [
        | inl stays ↦ rw (stays, branch, Returns) tt
        | inr set ↦ elim (Bool-cases (is_neg cleared.ret)) [
          | inl failed ↦ rw (set, branch, ◌>>=◌, call, failed, Returns) tt
          | inr fine ↦ rw (set, branch, ◌>>=◌, call, fine, Returns) tt
        ]
      ]
    where
      asked : Reply
      asked = env.answer h (pi_get_bit (reset_byte % 2 ^ 16) reset_bit)

      cleared : Reply
      cleared =
          env.answer (followed_by env (pi_get_bit (reset_byte % 2 ^ 16) reset_bit) h)
            (pi_write status_byte 1 (0 ∷ []))

  reset_all-Returns :
      (q : List SchedulerEvent) (h : History) → Returns (λ r h'. Unit {0}) (reset_all env q h)
  unfolding reset_all
  reset_all-Returns [] h = tt
  reset_all-Returns (e ∷ rest) h =
      Returns-bind (λ r h'. Unit {0}) (λ r h'. Unit {0})
        (reset_modbus_action_status env e.action.reset_status_byte_offset
          e.action.reset_status_bit_offset e.action.status_byte_offset)
        (λ a. reset_all env rest) h
        (reset-Returns e.action.reset_status_byte_offset e.action.reset_status_bit_offset
          e.action.status_byte_offset h)
        λ r h' u. reset_all-Returns rest h'

  -- After a round the state is valid, with one more error in a row or none; or the connection ends,
  -- after a failure that followed 100 others.
  abbrev pub Continues : MasterState → Round → Type 0
  Continues s o =
      ((s' : MasterState) × (o ≡ again s')
        × MasterIsValid env s'
        × ((s'.err_cnt ≡ s.err_cnt + 1) ⊎ (s'.err_cnt ≡ 0) ⊎ (s'.err_cnt ≡ s.err_cnt)))
      ⊎ ((buf : List ℕ) × (o ≡ reconnect buf)
          × (length buf ≡ max_register_size_per_action)
          × (s.err_cnt ≡ max_errors))

  with_result :
      (s : MasterState) (t : Timespec) (buf : List ℕ) (n : ℕ)
      → MasterIsValid env s
      → length buf ≡ max_register_size_per_action
      → n ≤ max_errors
      → MasterIsValid env (record s { earliest_next_trigger_time = t; buffer = buf; err_cnt = n })
  with_result s t buf n v size few = record {
    nonempty = v.nonempty;
    valid = v.valid;
    can_process = v.can_process;
    size = size;
    few_errors = few;
  }

  tcp_result_lem :
      (s : MasterState) (r : ℤ × Timespec × List ℕ) (h : History)
      → MasterIsValid env s
      → length r.2 ≡ max_register_size_per_action
      → Returns (λ o h'. Continues s o) (tcp_result env s r h)
  unfolding tcp_result
  tcp_result_lem s (ret, t, buf) h v size = elim (Bool-cases (is_neg ret)) [
    | inl failed ↦ elim (Bool-cases (ltb max_errors (s.err_cnt + 1))) [
      | inl many ↦
          rw (failed, many, branch, ◌>>=◌, call, Returns)
            (inr (
              buf,
              refl,
              size,
              omega (arith, v.few_errors, ltb→lt max_errors (s.err_cnt + 1) many),
            ))
      | inr few ↦
          rw (failed, few, branch, Returns)
            (inl (
              record s { earliest_next_trigger_time = t; buffer = buf; err_cnt = s.err_cnt + 1 },
              refl,
              with_result s t buf (s.err_cnt + 1) v size (ground (arith, v.few_errors)),
              inl refl,
            ))
    ]
    | inr fine ↦
        rw (fine, branch, Returns)
          (inl (
            record s { earliest_next_trigger_time = t; buffer = buf; err_cnt = 0 },
            refl,
            with_result s t buf 0 v size (omega arith),
            inr (inl refl),
          ))
  ]

  -- The resets and the transfer, whatever is done with its result.
  pub tcp_event_lem :
      (ev : ModbusEvent) (s : MasterState) (h : History)
      → MasterIsValid env s
      → CanProcess env ev.action
      → Returns (λ o h'. Continues s o) (tcp_event env d offset ev s h)
  unfolding tcp_event reset_modbus_master_status
  tcp_event_lem ev s h v can =
      Returns-bind (λ r h'. Unit {0}) (λ o h'. Continues s o)
        (reset_modbus_action_status env ev.action.reset_status_byte_offset
          ev.action.reset_status_bit_offset ev.action.status_byte_offset)
        _ h
        (reset-Returns ev.action.reset_status_byte_offset ev.action.reset_status_bit_offset
          ev.action.status_byte_offset h)
        λ a h₁ u.
          Returns-bind (λ r h'. Unit {0}) (λ o h'. Continues s o)
            (reset_modbus_action_status env d.status_reset_byte 0 d.status_byte) _ h₁
            (reset-Returns d.status_reset_byte 0 d.status_byte h₁)
            λ m h₂ u'.
              Returns-bind
                (λ (r : ℤ × Timespec × List ℕ) h'. length r.2 ≡ max_register_size_per_action)
                (λ o h'. Continues s o) (process_event env ev offset s) (tcp_result env s) h₂
                (process_event_lem ev s h₂ can v.size) λ r h₃ size. tcp_result_lem s r h₃ v size

  pub rtu_event_lem :
      (ev : ModbusEvent) (s : MasterState) (h : History)
      → MasterIsValid env s
      → CanProcess env ev.action
      → Returns (λ o h'. Continues s o) (rtu_event env d offset ev s h)
  unfolding rtu_event reset_modbus_master_status
  rtu_event_lem ev s h v can =
      Returns-bind (λ r h'. Unit {0}) (λ o h'. Continues s o) (reset_all env s.queue) _ h
        (reset_all-Returns s.queue h)
        λ a h₁ u.
          Returns-bind (λ r h'. Unit {0}) (λ o h'. Continues s o)
            (reset_modbus_action_status env d.status_reset_byte 0 d.status_byte) _ h₁
            (reset-Returns d.status_reset_byte 0 d.status_byte h₁)
            λ m h₂ u'.
              Returns-bind
                (λ (r : ℤ × Timespec × List ℕ) h'. length r.2 ≡ max_register_size_per_action)
                (λ o h'. Continues s o) (process_event env ev offset s) _ h₂
                (process_event_lem ev s h₂ can v.size)
                λ r h₃ size. inl (
                  record s { earliest_next_trigger_time = r.1; buffer = r.2 },
                  refl,
                  with_result s r.1 r.2 s.err_cnt v size v.few_errors,
                  inr (inr refl),
                )
