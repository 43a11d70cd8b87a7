-- ===== src/Program/Passes.antt =====
-- A pass of each main program.
use revpi_modbus.Program.Threads.{
  puts, threads_of, uses-thread, uses-null, free_modbus_master_config_data_lem, cancel_masters_lem,
  start_threads_lem, wait_for_reset_lem, Did-nothing, uses, frees_entry, none_of, cancels, Did,
  ResetsWithin,
}
use revpi_modbus.Device.File.{free_config_buffer}
use revpi_modbus.Program.{
  free_modbus_master_config_data, cancel_masters, start_threads, wait_for_reset, over, end_of_pass,
  master_pass,
}
use revpi_modbus.Slave.Resources.{total}
use revpi_modbus.Prelude.{
  none, some, Option, Bool, ℕ, ◌+◌, ◌≡◌, refl, true, false, List, [], ◌∷◌, length, arith,
}
use revpi_modbus.Prelude.Int.{ℤ, is_zero}
use revpi_modbus.Config.{MasterConfiguration}
use revpi_modbus.External.{
  Handle, null, thread, Reply, M, pure, Env, History, ◌>>=◌, ◌>>◌, call, branch, followed_by,
  alloc_threads, free_threads,
}
use revpi_modbus.External.Reasoning.{Returns, Returns-bind, Returns-mono}

-- From one history to a later one, `x` is cancelled as often as a call of `pthread_create` put it into
-- the array.
abbrev pub Balanced : (left : Reply → Handle) → Handle → History → History → Type 0
Balanced left x h h' =
    total (cancels x) h' + total (puts left x) h ≡ total (cancels x) h + total (puts left x) h'

-- Every thread is cancelled exactly as often as it was put into the array, and `n` configurations are
-- freed.
pub record Cleared (left : Reply → Handle) (n : ℕ) (h h' : History) : Type 0 where
  pub threads : (i : ℕ) → Balanced left (thread i) h h'
  pub entries : total frees_entry h' ≡ total frees_entry h + n

-- Memory for an array of threads is there.
abbrev pub AllocatesThreads : Env → Type 0
AllocatesThreads env = (h : History) (n : ℕ) → is_zero (env.answer h (alloc_threads n)).ret ≡ false

module _ (env : Env) (reset : ℤ → Bool) (left : Reply → Handle) where
  -- The end of a pass: the buffer of the file is freed.
  free_config_buffer_lem :
      (file : Option (List ℕ)) (s t : Handle → ℕ) (n : ℕ) (h h' : History)
      → Did left s t n h h'
      → Returns
          (λ p h''. (p ≡ over) × Did left s t n h h'')
          ((free_config_buffer env file >> pure over) h')
  unfolding free_config_buffer
  free_config_buffer_lem none s t n h h' d = (refl, d)
  free_config_buffer_lem (some buf) s t n h h' d = (
    refl,
    record {
      created_now = λ i. omega (arith, d.created_now i);
      cancelled_now = λ i. omega (arith, d.cancelled_now i);
      freed_now = omega (arith, d.freed_now);
    },
  )

  pub end_of_pass_lem :
      (file : Option (List ℕ)) (w : ℕ) (stop : M (Unit {0})) (s t : Handle → ℕ) (n : ℕ)
      (h : History)
      → ResetsWithin env reset w
      → ((h₁ : History) → Returns (λ u h'. Did left s t n h₁ h') (stop h₁))
      → Returns (λ p h'. (p ≡ over) × Did left s t n h h') (end_of_pass env reset file w stop h)
  unfolding end_of_pass
  end_of_pass_lem file w stop s t n h resets stops =
      let (k, lt, comes) = resets h in
      Returns-bind (λ came h'. (came ≡ true) × Did left none_of none_of 0 h h') _
        (wait_for_reset env reset w) _ h (wait_for_reset_lem env reset left k w h lt comes)
        λ came h₁ r.
          rw (r.0, branch)
            (Returns-bind (λ u h'. Did left s t n h₁ h') (λ p h'. (p ≡ over) × Did left s t n h h')
              stop _ h₁ (stops h₁)
              λ u h₂ d.
                let sum : Did left s t n h h₂ = record {
                  created_now = λ i. omega (arith, r.1.created_now i, d.created_now i);
                  cancelled_now = λ i. omega (arith, r.1.cancelled_now i, d.cancelled_now i);
                  freed_now = omega (arith, r.1.freed_now, d.freed_now);
                } in
                free_config_buffer_lem file s t n h h₂ sum)

  stop_masters_lem :
      (handles : List Handle) (configs : List MasterConfiguration) (h : History)
      → Returns
          (λ u h'. Did left none_of (λ x. uses x (threads_of handles)) (length configs) h h')
          ((cancel_masters env reset handles
              >> (call env free_threads >> free_modbus_master_config_data env reset configs))
            h)
  stop_masters_lem handles configs h =
      Returns-bind (λ u h'. Did left none_of (λ x. uses x (threads_of handles)) 0 h h') _
        (cancel_masters env reset handles) _ h (cancel_masters_lem env reset left handles h)
        λ u h₁ d.
          let h₂ = followed_by env free_threads h₁ in
          Returns-mono (λ u h'. Did left none_of none_of (length configs) h₂ h') _
            (free_modbus_master_config_data env reset configs h₂)
            (free_modbus_master_config_data_lem env reset left configs h₂)
            λ u h₃ d'. record {
              created_now = λ i. omega (arith, d.created_now i, d'.created_now i);
              cancelled_now = λ i. omega (arith, d.cancelled_now i, d'.cancelled_now i);
              freed_now = omega (arith, d.freed_now, d'.freed_now);
            }

  -- Threads and configurations, and as many calls of `pthread_cancel` with a 0 as before.
  abbrev pub ClearedMasters : ℕ → History → History → Type 0
  ClearedMasters n h h' = Cleared left n h h' × (total (cancels null) h' ≡ total (cancels null) h)

  -- A pass of the master program, where memory for the array is there and among `w` events from any
  -- moment on there is a reset: the pass ends, each configuration is freed, and each thread is
  -- cancelled exactly as often as a call of `pthread_create` put it into the array. A call that
  -- succeeds puts the thread that it started there, and one that fails what `left` says, which may
  -- be a thread too. `pthread_cancel` is never called with a 0.
  pub master_pass_lem :
      (file : Option (List ℕ)) (w : ℕ) (configs : List MasterConfiguration) (h : History)
      → AllocatesThreads env
      → ResetsWithin env reset w
      → Returns
          (λ p h'. (p ≡ over) × ClearedMasters (length configs) h h')
          (master_pass env reset file left w configs h)
  unfolding master_pass
  master_pass_lem file w [] h memory resets =
      Returns-mono (λ p h'. (p ≡ over) × Did left none_of none_of 0 h h') _
        (end_of_pass env reset file w (pure tt) h)
        (end_of_pass_lem file w (pure tt) none_of none_of 0 h resets (Did-nothing env reset left))
        λ p h' r. (
          r.0,
          (
            record {
              threads =
                  λ i. omega (arith, r.1.created_now (thread i), r.1.cancelled_now (thread i));
              entries = r.1.freed_now;
            },
            omega (arith, r.1.cancelled_now null),
          ),
        )
  master_pass_lem file w (c ∷ rest) h memory resets =
      let configs = c ∷ rest in
      let h₁ = followed_by env (alloc_threads (length configs)) h in
      rw (master_pass, ◌>>=◌, call, memory h (length configs), branch)
        (Returns-bind (λ handles h'. Did left (λ x. uses x handles) none_of 0 h₁ h')
          (λ p h'. (p ≡ over) × ClearedMasters (length configs) h h')
          (start_threads env reset left 0 configs) _ h₁
          (start_threads_lem env reset left 0 configs h₁)
          λ handles h₂ d.
            Returns-mono
              (λ p h'.
                (p ≡ over)
                × Did left none_of (λ x. uses x (threads_of handles)) (length configs) h₂ h')
              _
              (end_of_pass env reset file w
                (cancel_masters env reset handles
                  >> (call env free_threads >> free_modbus_master_config_data env reset configs))
                h₂)
              (end_of_pass_lem file w _ none_of (λ x. uses x (threads_of handles)) (length configs)
                h₂ resets (stop_masters_lem handles configs))
              λ p h₃ r. (
                r.0,
                (
                  record {
                    threads = λ i. omega (
                      arith,
                      d.created_now (thread i),
                      d.cancelled_now (thread i),
                      r.1.created_now (thread i),
                      r.1.cancelled_now (thread i),
                      uses-thread i handles,
                    );
                    entries = omega (arith, d.freed_now, r.1.freed_now);
                  },
                  omega (arith, d.cancelled_now null, r.1.cancelled_now null, uses-null handles),
                ),
              ))
