-- ===== src/Program/Slaves.antt =====
-- A pass of the slave program, which cancels whatever stands in its array of threads.
use revpi_modbus.Program.Passes.{Balanced, end_of_pass_lem, Cleared, AllocatesThreads}
use revpi_modbus.Program.Threads.{ResetsWithin, Did-nothing, start_threads_lem, uses, none_of, Did}
use revpi_modbus.Program.{over, end_of_pass, cancel_slaves, free_slaves, start_threads, slave_pass}
use revpi_modbus.Prelude.{Option, Bool, ℕ, ◌≡◌, List, [], ◌∷◌, length, arith}
use revpi_modbus.Prelude.Int.{ℤ}
use revpi_modbus.Config.{SlaveConfiguration}
use revpi_modbus.External.{
  Reply, Handle, null, thread, pthread_cancel, pure, Env, History, ◌>>=◌, ◌>>◌, call, branch,
  followed_by, alloc_threads, free_threads, free_entry,
}
use revpi_modbus.External.Reasoning.{Returns, Returns-bind, Returns-mono}

-- What the slave program stores where a thread cannot be started.
abbrev pub cleared_handle : Reply → Handle
cleared_handle r = null

module _ (env : Env) (reset : ℤ → Bool) where
  cancel_slaves_lem :
      (handles : List Handle) (h : History)
      → Returns
          (λ u h'. Did cleared_handle none_of (λ x. uses x handles) 0 h h')
          (cancel_slaves env reset handles h)
  unfolding cancel_slaves
  cancel_slaves_lem [] h = Did-nothing env reset cleared_handle h
  cancel_slaves_lem (y ∷ rest) h =
      let h₁ = followed_by env (pthread_cancel y) h in
      Returns-mono (λ u h'. Did cleared_handle none_of (λ x. uses x rest) 0 h₁ h') _
        (cancel_slaves env reset rest h₁) (cancel_slaves_lem rest h₁)
        λ u h' d. record {
          created_now = λ x. omega (arith, d.created_now x);
          cancelled_now = λ x. omega (arith, d.cancelled_now x);
          freed_now = omega (arith, d.freed_now);
        }

  free_slaves_lem :
      (configs : List SlaveConfiguration) (h : History)
      → Returns
          (λ u h'. Did cleared_handle none_of none_of (length configs) h h')
          (free_slaves env reset configs h)
  unfolding free_slaves
  free_slaves_lem [] h = Did-nothing env reset cleared_handle h
  free_slaves_lem (c ∷ rest) h =
      let h₁ = followed_by env free_entry h in
      Returns-mono (λ u h'. Did cleared_handle none_of none_of (length rest) h₁ h') _
        (free_slaves env reset rest h₁) (free_slaves_lem rest h₁)
        λ u h' d. record {
          created_now = λ i. omega (arith, d.created_now i);
          cancelled_now = λ i. omega (arith, d.cancelled_now i);
          freed_now = omega (arith, d.freed_now);
        }

  stop_slaves_lem :
      (handles : List Handle) (configs : List SlaveConfiguration) (h : History)
      → Returns
          (λ u h'. Did cleared_handle none_of (λ x. uses x handles) (length configs) h h')
          ((cancel_slaves env reset handles
              >> (call env free_threads >> free_slaves env reset configs))
            h)
  stop_slaves_lem handles configs h =
      Returns-bind (λ u h'. Did cleared_handle none_of (λ x. uses x handles) 0 h h') _
        (cancel_slaves env reset handles) _ h (cancel_slaves_lem handles h)
        λ u h₁ d.
          let h₂ = followed_by env free_threads h₁ in
          Returns-mono (λ u h'. Did cleared_handle none_of none_of (length configs) h₂ h') _
            (free_slaves env reset configs h₂) (free_slaves_lem configs h₂)
            λ u h₃ d'. record {
              created_now = λ i. omega (arith, d.created_now i, d'.created_now i);
              cancelled_now = λ i. omega (arith, d.cancelled_now i, d'.cancelled_now i);
              freed_now = omega (arith, d.freed_now, d'.freed_now);
            }

  -- What is put into the array is cancelled, a 0 like a thread, and `n` configurations are freed.
  abbrev pub ClearedSlaves : ℕ → History → History → Type 0
  ClearedSlaves n h h' = Cleared cleared_handle n h h' × Balanced cleared_handle null h h'

  -- A pass of the slave program, where memory for the array is there and among `w` events from any
  -- moment on there is a reset: the pass ends, each configuration is freed, each thread is cancelled
  -- exactly as often as it was started, and for each thread that cannot be started `pthread_cancel` is
  -- called once with a 0, which is no thread.
  pub slave_pass_lem :
      (file : Option (List ℕ)) (w : ℕ) (configs : List SlaveConfiguration) (h : History)
      → AllocatesThreads env
      → ResetsWithin env reset w
      → Returns
          (λ p h'. (p ≡ over) × ClearedSlaves (length configs) h h')
          (slave_pass env reset file w configs h)
  unfolding slave_pass
  slave_pass_lem file w [] h memory resets =
      Returns-mono (λ p h'. (p ≡ over) × Did cleared_handle none_of none_of 0 h h') _
        (end_of_pass env reset file w (pure tt) h)
        (end_of_pass_lem env reset cleared_handle file w (pure tt) none_of none_of 0 h resets
          (Did-nothing env reset cleared_handle))
        λ p h' r. (
          r.0,
          (
            record {
              threads =
                  λ i. omega (arith, r.1.created_now (thread i), r.1.cancelled_now (thread i));
              entries = r.1.freed_now;
            },
            omega (arith, r.1.created_now null, r.1.cancelled_now null),
          ),
        )
  slave_pass_lem file w (c ∷ rest) h memory resets =
      let configs = c ∷ rest in
      let h₁ = followed_by env (alloc_threads (length configs)) h in
      rw (slave_pass, ◌>>=◌, call, memory h (length configs), branch)
        (Returns-bind (λ handles h'. Did cleared_handle (λ x. uses x handles) none_of 0 h₁ h')
          (λ p h'. (p ≡ over) × ClearedSlaves (length configs) h h')
          (start_threads env reset cleared_handle 0 configs) _ h₁
          (start_threads_lem env reset cleared_handle 0 configs h₁)
          λ handles h₂ d.
            Returns-mono
              (λ p h'.
                (p ≡ over)
                × Did cleared_handle none_of (λ x. uses x handles) (length configs) h₂ h')
              _
              (end_of_pass env reset file w
                (cancel_slaves env reset handles
                  >> (call env free_threads >> free_slaves env reset configs))
                h₂)
              (end_of_pass_lem env reset cleared_handle file w _ none_of (λ x. uses x handles)
                (length configs) h₂ resets (stop_slaves_lem handles configs))
              λ p h₃ r.
                let balanced : (x : Handle) → Balanced cleared_handle x h h₃ = λ x. omega (
                  arith,
                  d.created_now x,
                  d.cancelled_now x,
                  r.1.created_now x,
                  r.1.cancelled_now x,
                ) in
                (
                  r.0,
                  (
                    record {
                      threads = λ i. balanced (thread i);
                      entries = omega (arith, d.freed_now, r.1.freed_now);
                    },
                    balanced null,
                  ),
                ))
