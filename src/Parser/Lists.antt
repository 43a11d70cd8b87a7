-- ===== src/Parser/Lists.antt =====
-- The list of a master's actions: what the parser guarantees, and what the rest of the master makes
-- of it.
use revpi_modbus.Processor.Safety.{process_modbus_action_lem, Completed}
use revpi_modbus.External.Reasoning.{Returns}
use revpi_modbus.Processor.{process_modbus_action, accepts}
use revpi_modbus.Prelude.{
  Option-cases, refl, ◌+◌, ◌≢◌, ℕ, ◌≡◌, true, List, [], ◌∷◌, All, Option, none, some, Bool-cases,
  inl, inr, Bool, length, arith,
}
use revpi_modbus.Config.{max_register_size_per_action, ModbusAction}
use revpi_modbus.External.{pure, IsDocumented, Env, History, branch}
use revpi_modbus.Scheduler.{Timespec, IsNormal, init_scheduler, ready, SchedulerEvent}
use revpi_modbus.Scheduler.Start.{init_scheduler_ready, Started, Interval, AllocatesAll}
use revpi_modbus.Parser.{
  data_key, extend_key, latest, ◌>=>◌, starts_with, Libraries, Text, ParsingError, parse_action,
  parse_entries, parse_modbus_master_action_list, parse_numbers, parse_variables, initialise_status,
  action_id_key,
}
use revpi_modbus.Parser.Allows.{Allows-parsed, Allows, WhereRead, Allows-bind, Allows-then}
use revpi_modbus.Parser.Actions.{
  ActionIsParsed, parse_numbers-ActionIsParsed, parse_variables-ActionIsParsed,
}

module _ (env : Env) (lib : Libraries) where
  open lib use {Json, object_get, entries, find_identifier, allocates}

  abbrev pub Valid : Option ParsingError × List ModbusAction × ℕ → Type 0
  Valid r = All ActionIsParsed r.1 × (r.2 ≡ length r.1)

  parse_action-ActionIsParsed :
      (device actions : Json) (identifier : Option Text) (h : History)
      → Allows (WhereRead ActionIsParsed) (parse_action env lib device actions identifier h)
  unfolding parse_action initialise_status
  parse_action-ActionIsParsed device actions identifier h =
      Allows-then ActionIsParsed ActionIsParsed (parse_numbers lib actions identifier)
        (λ a. parse_variables lib device actions identifier a >=> λ a'. initialise_status env a') h
        (parse_numbers-ActionIsParsed env lib actions identifier h)
        λ a h₁ ok.
          Allows-then ActionIsParsed ActionIsParsed
            (parse_variables lib device actions identifier a) (initialise_status env) h₁
            (parse_variables-ActionIsParsed env lib device actions identifier a h₁ ok)
            λ a' h₂ ok'. ok'

  parse_entries-ActionIsParsed :
      (device actions : Json) (rest : List (Text × Json)) (identifier : Option Text)
      (list : List ModbusAction) (count : ℕ) (h : History)
      → All ActionIsParsed list
      → count ≡ length list
      → Allows Valid (parse_entries env lib device actions rest identifier list count h)
  unfolding parse_entries
  parse_entries-ActionIsParsed device actions [] identifier list count h ok n = (ok, n)
  parse_entries-ActionIsParsed device actions ((name, val) ∷ rest) identifier list count h ok n =
      elim (Bool-cases (starts_with action_id_key name)) [
        | inl new ↦ elim (Bool-cases (allocates name)) [
          | inl memory ↦
              let identifier' = latest identifier (find_identifier name) in
              rw (new, memory, branch)
                (Allows-bind (WhereRead ActionIsParsed) Valid
                  (parse_action env lib device actions identifier') _ h
                  (parse_action-ActionIsParsed device actions identifier' h)
                  (Allows-parsed ActionIsParsed Valid
                    (λ a. parse_entries env lib device actions rest none (a ∷ list) (count + 1))
                    (parse_entries env lib device actions rest identifier' list count)
                    (λ e. pure (some e, list, count))
                    (λ a h' ok'.
                      parse_entries-ActionIsParsed device actions rest none (a ∷ list) (count + 1)
                        h' (ok', ok) (omega (arith, n)))
                    (λ h'.
                      parse_entries-ActionIsParsed device actions rest identifier' list count h' ok
                        n)
                    λ e h'. (ok, n)))
          | inr no_memory ↦ rw (new, no_memory, branch, Allows) (ok, n)
        ]
        | inr other ↦
            rw (other, branch)
              (parse_entries-ActionIsParsed device actions rest identifier list count h ok n)
      ]

  -- Whatever the configuration, every action in the list that the parser leaves, whether it ends
  -- with an error or not, is one that the rest of the master can rely on, and the count of the
  -- actions is right.
  pub parse_modbus_master_action_list_lem :
      (device : Json) (h : History)
      → Allows Valid (parse_modbus_master_action_list env lib device h)
  unfolding parse_modbus_master_action_list
  parse_modbus_master_action_list_lem device h =
      elim (Option-cases (object_get device extend_key)) [
        | inl missing ↦ rw (parse_modbus_master_action_list, missing, Allows) (tt, refl)
        | inr (extend, found) ↦ elim (Option-cases (object_get extend data_key)) [
          | inl missing ↦ rw (parse_modbus_master_action_list, found, missing, Allows) (tt, refl)
          | inr (actions, found') ↦
              rw (parse_modbus_master_action_list, found, found')
                (parse_entries-ActionIsParsed device actions (entries actions) none [] 0 h tt refl)
        ]
      ]

intervals : (actions : List ModbusAction) → All ActionIsParsed actions → All Interval actions
intervals [] ok = tt
intervals (a ∷ rest) (ok, oks) = (omega (arith, ok.interval.0), intervals rest oks)

-- Parsed actions start a scheduler: with a normalised clock, memory for the events and at least one
-- action, `initScheduler` returns a valid queue with one event for each.
pub parsed_actions_start :
    (malloc : ℕ → Bool) (now : Timespec)
    → IsNormal now
    → (actions : List ModbusAction) → actions ≢ []
    → All ActionIsParsed actions
    → AllocatesAll malloc 0 actions
    → (q : List SchedulerEvent) × (init_scheduler malloc now actions ≡ ready q)
      × Started now actions q
parsed_actions_start malloc now normal actions some_actions ok memory =
    init_scheduler_ready malloc now normal actions some_actions (intervals actions ok) memory

-- A parsed action fits the buffer of a master: with documented libraries, `processModbusAction` ends
-- for it as `Completed` says, unless the assertion about its register count fails.
pub parsed_action_completes :
    (env : Env) (a : ModbusAction) (buf : List ℕ) (h : History)
    → IsDocumented env
    → ActionIsParsed a
    → length buf ≡ max_register_size_per_action
    → accepts env a ≡ true
    → Returns (Completed env a buf h) (process_modbus_action env a buf h)
parsed_action_completes env a buf h doc ok size accepted =
    process_modbus_action_lem env a buf h doc (record { size = size; count = ok.count.1 }) accepted
