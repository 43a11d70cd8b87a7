-- ===== src/Program/System.antt =====
-- A master from the configuration file on: src/piModbusMaster.c with the parser and both threads.
use revpi_modbus.Slave.Resources.{Owes}
use revpi_modbus.Master.Released.{HasReleased}
use revpi_modbus.Master.Balance.{tcp_master_thread-HasReleased, rtu_master_thread-HasReleased}
use revpi_modbus.Processor.Scope.{Extends}
use revpi_modbus.Master.Scope.{OfMaster}
use revpi_modbus.External.{Outcome, Call, Env, M, History, done, IsDocumented}
use revpi_modbus.Prelude.{
  ℕ, ◌<◌, ◌≡◌, ◌≢◌, subst, true, Bool, Option, List, [], All, Holds, inl, inr, ◌∷◌, sym,
}
use revpi_modbus.Config.{DeviceConfiguration, MasterConfiguration, Protocol, tcp, rtu}
use revpi_modbus.Scheduler.Offset.{Double}
use revpi_modbus.Scheduler.Quarter.{IsIeee}
use revpi_modbus.Scheduler.Start.{AllocatesAll}
use revpi_modbus.External.Reasoning.{Returns-mono, Returns-both, Returns}
use revpi_modbus.Processor.{accepts}
use revpi_modbus.Parser.{Libraries, Text, ParsingError}
use revpi_modbus.Parser.Allows.{Allows}
use revpi_modbus.Device.{Platform, parse_modbus_master_config_data}
use revpi_modbus.Device.Lists.{MasterIsParsed, parse_modbus_master_config_data_lem}
use revpi_modbus.Slave.Threads.{ThreadState, waiting}
use revpi_modbus.Slave.Released.{IsThere}
use revpi_modbus.Master.{MasterDevice}
use revpi_modbus.Master.Events.{ClockIsNormal}
use revpi_modbus.Master.Threads.{tcp_master_thread, rtu_master_thread}
use revpi_modbus.Master.Runs.{tcp_master_thread-ends, rtu_master_thread_lem, positive-length}

abbrev pub status_offsets : DeviceConfiguration → MasterDevice
status_offsets d = record {
  status_byte = d.device_status_byte_offset;
  status_reset_byte = d.device_status_reset_byte_offset;
}

-- The calls that a configured master may make: for its device and its context, and those that serve
-- one of its actions.
abbrev pub OfConfigured : MasterConfiguration → Call → Type 0
OfConfigured c = OfMaster (status_offsets c.master_device) c.action_list

-- The start routine that the main program gives the thread of a master, by its protocol.
unfoldable pub run_master :
    Env → (malloc : ℕ → Bool) → Double → (n k w : ℕ) → MasterConfiguration → M ThreadState
run_master env malloc double n k w c = elim c.master_device.protocol [
  | tcp t ↦ tcp_master_thread env malloc double (status_offsets c.master_device) c.action_list n k
  | rtu r ↦
      rtu_master_thread env malloc (status_offsets c.master_device) c.action_list c.action_count n w
]

held-All : {A : Type 0} (P : A → Type 0) (a : A) (xs : List A) → All P xs → Holds a xs → P a
held-All P a (x ∷ xs) (p, ps) (inl same) = subst P (sym same) p
held-All P a (x ∷ xs) (p, ps) (inr held) = held-All P a xs ps held
held-All P a [] ps held = absurd held

module _ (env : Env) (doc : IsDocumented env) (clock : ClockIsNormal env) (malloc : ℕ → Bool)
    (double : Double) (ieee : IsIeee double) where
  parsed_master_runs :
      (c : MasterConfiguration) (n k w tries : ℕ) (h : History)
      → MasterIsParsed c
      → c.action_list ≢ []
      → All (λ a. accepts env a ≡ true) c.action_list
      → AllocatesAll malloc 0 c.action_list
      → k < w
      → IsThere env k h
      → Returns
          (λ s h'. (s ≢ waiting) × Extends (OfConfigured c) h h' × Owes 0 0 h h')
          (run_master env malloc double n tries w c h)
  unfolding run_master
  parsed_master_runs c n k w tries h parsed some_actions accepted memory lt there =
      go c.master_device.protocol
    where
      d : MasterDevice
      d = status_offsets c.master_device

      some_count : 0 < c.action_count
      some_count =
          subst (λ m. 0 < m) (sym parsed.counted) (positive-length c.action_list some_actions)

      together :
          (o : Outcome ThreadState)
          → Returns (λ s h'. (s ≢ waiting) × Extends (OfConfigured c) h h') o
          → Returns (HasReleased h) o
          → Returns (λ s h'. (s ≢ waiting) × Extends (OfConfigured c) h h' × Owes 0 0 h h') o
      together o ends released =
          Returns-mono
            (λ s h'. ((s ≢ waiting) × Extends (OfConfigured c) h h') × HasReleased h s h')
            (λ s h'. (s ≢ waiting) × Extends (OfConfigured c) h h' × Owes 0 0 h h') o
            (Returns-both (λ s h'. (s ≢ waiting) × Extends (OfConfigured c) h h') (HasReleased h) o
              ends released)
            λ s h' r. (r.0.0, r.0.1, r.1.1)

      go :
          (p : Protocol)
          → Returns
              (λ s h'. (s ≢ waiting) × Extends (OfConfigured c) h h' × Owes 0 0 h h')
              ((elim p as (λ x. M ThreadState) [
                | tcp t ↦ tcp_master_thread env malloc double d c.action_list n tries
                | rtu r ↦ rtu_master_thread env malloc d c.action_list c.action_count n w
              ])
                h)
      go (tcp t) =
          together (tcp_master_thread env malloc double d c.action_list n tries h)
            (tcp_master_thread-ends env doc clock d malloc c.action_list some_actions parsed.actions
              accepted memory n double ieee tries h)
            (tcp_master_thread-HasReleased env doc clock d malloc c.action_list some_actions
              parsed.actions accepted memory n double ieee tries h)
      go (rtu r) =
          together (rtu_master_thread env malloc d c.action_list c.action_count n w h)
            (rtu_master_thread_lem env doc clock d malloc c.action_list some_actions parsed.actions
              accepted memory n c.action_count some_count k w h lt there)
            (rtu_master_thread-HasReleased env doc clock d malloc c.action_list some_actions
              parsed.actions accepted memory n c.action_count some_count k w h lt there)

  -- From the text of the configuration file to the end of a thread: `c` is a master that
  -- `parse_modbus_master_config_data` reads from it, with an action, and each action has a register
  -- count that one request holds. With documented libraries, a normalised clock, doubles as IEEE 754
  -- has them, memory for its events, and for RTU a device that is there at the try `k` of more, the
  -- thread that the main program starts for `c` does not wait for ever: whichever calls fail, no
  -- assertion fails and no access leaves the buffer, for any number of connections and rounds, until
  -- it exits or is cancelled. Each of its calls is for the master's status byte or reset bit, for its
  -- connection, context or thread, for the lock or the clock, or it serves one of the configured
  -- actions: it moves that action's data, concerns its status byte or reset bit, or chooses its slave.
  -- In the end the thread has released the context of libmodbus exactly as often as it made one.
  pub configured_master_runs :
      (lib : Libraries) (platform : Platform lib) (text : Text) (h₀ h₁ : History)
      (r : Option ParsingError × List MasterConfiguration) (c : MasterConfiguration)
      (n k w tries : ℕ) (h : History)
      → parse_modbus_master_config_data lib platform env text h₀ ≡ done r h₁
      → Holds c r.1
      → c.action_list ≢ []
      → All (λ a. accepts env a ≡ true) c.action_list
      → AllocatesAll malloc 0 c.action_list
      → k < w
      → IsThere env k h
      → Returns
          (λ s h'. (s ≢ waiting) × Extends (OfConfigured c) h h' × Owes 0 0 h h')
          (run_master env malloc double n tries w c h)
  configured_master_runs lib platform text h₀ h₁ r c n k w tries h read held some_actions accepted
        memory lt there =
      let all_parsed : All MasterIsParsed r.1 =
        subst
          (Allows (λ (r : Option ParsingError × List MasterConfiguration). All MasterIsParsed r.1))
          read (parse_modbus_master_config_data_lem env lib platform text h₀) in
      parsed_master_runs c n k w tries h (held-All MasterIsParsed c r.1 all_parsed held)
        some_actions accepted memory lt there
