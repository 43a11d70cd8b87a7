-- ===== src/Processor/Status.antt =====
-- `reset_modbus_action_status`: how the controller acknowledges an error.
use revpi_modbus.Prelude.{ℕ, ◌%◌, ◌^◌, ◌≡◌, ◌≢◌, [], ◌∷◌, get_or, true, false, arith}
use revpi_modbus.Prelude.Int.{ℤ, is_neg}
use revpi_modbus.External.{
  Env, Reply, History, Outcome, done, followed_by, pi_get_bit, pi_set_bit, pi_write,
}
use revpi_modbus.Processor.{reset_modbus_action_status}

module _ (env : Env) (reset_byte reset_bit status_byte : ℕ) (h : History) where
  -- The answer to the query for the reset bit, and the history after it.
  abbrev asked : Reply
  asked = env.answer h (pi_get_bit (reset_byte % 2 ^ 16) reset_bit)

  abbrev h₁ : History
  h₁ = followed_by env (pi_get_bit (reset_byte % 2 ^ 16) reset_bit) h

  -- The answer to the write that clears the status byte, and the history after it.
  abbrev cleared : Reply
  cleared = env.answer h₁ (pi_write status_byte 1 (0 ∷ []))

  abbrev h₂ : History
  h₂ = followed_by env (pi_write status_byte 1 (0 ∷ [])) h₁

  -- An error is acknowledged exactly where the query succeeds and finds the bit set.
  abbrev Acknowledged : Type 0
  Acknowledged = (is_neg asked.ret ≡ false) × (get_or asked.out 0 0 ≢ 0)

  -- The calls made and the value returned, in each of the three cases.
  abbrev pub Acknowledges : Outcome ℤ → Type 0
  Acknowledges o =
      (¬ Acknowledged → o ≡ done asked.ret h₁)
      × (Acknowledged → is_neg cleared.ret ≡ true → o ≡ done cleared.ret h₂)
      × (Acknowledged
          → is_neg cleared.ret ≡ false
          → o
            ≡ done (env.answer h₂ (pi_set_bit (reset_byte % 2 ^ 16) reset_bit 0)).ret
                (followed_by env (pi_set_bit (reset_byte % 2 ^ 16) reset_bit 0) h₂))

  -- The status byte is cleared exactly where the reset bit can be read and is set, and the reset bit
  -- is then cleared exactly where the status byte could be; nothing else is written, and the last
  -- call made gives the result.
  pub reset_modbus_action_status_lem :
      Acknowledges (reset_modbus_action_status env reset_byte reset_bit status_byte h)
  unfolding reset_modbus_action_status
  reset_modbus_action_status_lem =
      ((λ no_ack. ground (arith)), (λ ack failed. ground arith), (λ ack fine. ground arith))
