-- ===== src/Slave/Released.antt =====
-- A slave over RTU from its start to its end.
use revpi_modbus.Slave.Resources.{
  Owes-Same, Same-event, Owes, Same-call, Same-trans, Processed-Same, Same-refl, Same,
}
use revpi_modbus.Slave.Threads.{
  cancelled, exited, new_mapping_call, open_rtu_slave, rtu_slave_thread, waiting, wait_for_device,
  run_rtu_slave, serve_requests, ThreadState,
}
use revpi_modbus.Slave.Access.{MappingIsSized}
use revpi_modbus.Slave.{
  process_modbus_request, release_slave, modbus_tcp_max_adu_length, Mapping, Serve,
}
use revpi_modbus.Slave.Request.{process_modbus_request_lem, Processed, KeepsSize, HeaderFits}
use revpi_modbus.Prelude.{
  if◌then◌else◌, Bool, ℕ, zero, suc, ◌<◌, ◌≡◌, ◌≢◌, inl, inr, refl, true, false, Bool-cases, List,
  length, arith,
}
use revpi_modbus.Prelude.Int.{is_zero, is_minus_one}
use revpi_modbus.Config.{SlaveDataSizeConfig, ProcessImageConfiguration, RtuConfig}
use revpi_modbus.External.{
  pure, modbus_new, modbus_connect, event, modbus_set_slave, Env, History, IsDocumented, ◌>>=◌,
  ◌>>◌, call, branch, followed_by, device_access, sleep_for,
}
use revpi_modbus.External.Reasoning.{Returns-mono, Returns, Returns-bind}

module _ (env : Env) where
  -- The history after a try in vain.
  abbrev pub again : History → History
  again h =
      followed_by env (sleep_for (record { tv_sec = 1; tv_nsec = 0 }))
        (followed_by env device_access h)

  Same-again : (h : History) → Same h (again h)
  Same-again h =
      let h₁ = followed_by env device_access h in
      Same-event h h₁ (event env (sleep_for (record { tv_sec = 1; tv_nsec = 0 })) h₁)
        (refl, refl, refl, refl)
        (Same-event h h (event env device_access h) (refl, refl, refl, refl) (Same-refl h))

  -- The history after `k` tries in vain.
  abbrev pub waited : ℕ → History → History
  waited zero h = h
  waited (suc k) h = waited k (again h)

  -- The device is there at the try `k`, if not before.
  abbrev pub IsThere : ℕ → History → Type 0
  IsThere k h = is_zero (env.answer (waited k h) device_access).ret ≡ true

  -- Where the device is there at the try `k`, the loop ends within `k + 1` tries.
  pub wait_for_device_lem :
      (k n : ℕ) (h : History)
      → k < n
      → IsThere k h
      → Returns (λ there h'. (there ≡ true) × Same h h') (wait_for_device env n h)
  unfolding wait_for_device
  wait_for_device_lem k zero h lt there = absurd (omega arith)
  wait_for_device_lem zero (suc n) h lt there =
      rw (there, branch, Returns) (refl, Same-call env device_access h (refl, refl, refl, refl))
  wait_for_device_lem (suc k) (suc n) h lt there =
      elim (Bool-cases (is_zero (env.answer h device_access).ret)) [
        | inl now ↦
            rw (now, branch, Returns) (refl, Same-call env device_access h (refl, refl, refl, refl))
        | inr later ↦
            rw (later, branch)
              (Returns-mono (λ found h'. (found ≡ true) × Same (again h) h')
                (λ found h'. (found ≡ true) × Same h h') (wait_for_device env n (again h))
                (wait_for_device_lem k n (again h) (omega arith) there)
                λ found h' r. (r.0, Same-trans h (again h) h' (Same-again h) r.1))
      ]

module _ (env : Env) (doc : IsDocumented env) (header : HeaderFits env) (serve : Serve)
    (keeps : KeepsSize serve) (new_mapping : SlaveDataSizeConfig → Mapping)
    (new_sized : (s : SlaveDataSizeConfig) → MappingIsSized (new_mapping s)) (buf : List ℕ)
    (size : length buf ≡ modbus_tcp_max_adu_length) (c : ProcessImageConfiguration) where
  serve_requests_lem :
      (n : ℕ) (m : Mapping) (h : History)
      → MappingIsSized m
      → Returns
          (λ m' h'. MappingIsSized m' × Same h h')
          (serve_requests env serve new_mapping n buf c m h)
  unfolding serve_requests
  serve_requests_lem zero m h sized = (sized, Same-refl h)
  serve_requests_lem (suc n) m h sized =
      Returns-bind (Processed env doc c serve keeps buf m h) _
        (process_modbus_request env serve buf m c) _ h
        (process_modbus_request_lem env doc c serve keeps header buf m h size sized)
        λ r h₁ p.
          let (sized', same) = Processed-Same env doc c serve keeps buf m h h₁ r sized p in
          Returns-mono (λ m' h'. MappingIsSized m' × Same h₁ h')
            (λ m' h'. MappingIsSized m' × Same h h')
            (serve_requests env serve new_mapping n buf c r.1 h₁)
            (serve_requests_lem n r.1 h₁ sized') λ m' h' q. (q.0, Same-trans h h₁ h' same q.1)

  -- How the thread ends: by itself or cancelled, with all released that it made.
  abbrev pub Ended : History → ThreadState → History → Type 0
  Ended h s h' = (s ≢ waiting) × Owes 0 0 h h'

  pub release_slave_lem :
      (mapping context : Bool) (h₀ h : History)
      → Owes (if mapping then 1 else 0) (if context then 1 else 0) h₀ h
      → Returns (λ u h'. Owes 0 0 h₀ h') (release_slave env mapping context h)
  unfolding release_slave
  release_slave_lem true true h₀ h o = record {
    mappings = omega (arith, o.mappings);
    contexts = omega (arith, o.contexts);
  }
  release_slave_lem true false h₀ h o = record {
    mappings = omega (arith, o.mappings);
    contexts = omega (arith, o.contexts);
  }
  release_slave_lem false true h₀ h o = record {
    mappings = omega (arith, o.mappings);
    contexts = omega (arith, o.contexts);
  }
  release_slave_lem false false h₀ h o = o

  pub finish_lem :
      (mapping context : Bool) (s : ThreadState) (h₀ h : History)
      → s ≢ waiting
      → Owes (if mapping then 1 else 0) (if context then 1 else 0) h₀ h
      → Returns (Ended h₀) ((release_slave env mapping context >> pure s) h)
  finish_lem mapping context s h₀ h ended o =
      Returns-bind (λ u h'. Owes 0 0 h₀ h') (Ended h₀) (release_slave env mapping context) _ h
        (release_slave_lem mapping context h₀ h o) λ u h' r. (ended, r)

  run_rtu_slave_lem :
      (n : ℕ) (sizes : SlaveDataSizeConfig) (rtu : RtuConfig) (h₀ h : History)
      → Owes 1 1 h₀ h
      → Returns (Ended h₀) (run_rtu_slave env serve new_mapping n buf sizes c rtu h)
  unfolding run_rtu_slave
  run_rtu_slave_lem n sizes rtu h₀ h o =
      let address = modbus_set_slave rtu.device_modbus_address in
      let h₁ = followed_by env address h in
      let h₂ = followed_by env modbus_connect h₁ in
      let o₁ = Owes-Same 1 1 h₀ h h₁ o (Same-call env address h (refl, refl, refl, refl)) in
      let o₂ =
        Owes-Same 1 1 h₀ h₁ h₂ o₁ (Same-call env modbus_connect h₁ (refl, refl, refl, refl)) in
      elim (Bool-cases (is_minus_one (env.answer h address).ret)) [
        | inl failed ↦
            rw (run_rtu_slave, ◌>>=◌, call, failed, branch)
              (finish_lem true true exited h₀ h₁ (λ e. cc) o₁)
        | inr fine ↦ elim (Bool-cases (is_minus_one (env.answer h₁ modbus_connect).ret)) [
          | inl failed ↦
              rw (run_rtu_slave, ◌>>=◌, call, fine, failed, branch)
                (finish_lem true true exited h₀ h₂ (λ e. cc) o₂)
          | inr connected ↦
              rw (run_rtu_slave, ◌>>=◌, call, fine, connected, branch)
                (Returns-bind (λ m h'. MappingIsSized m × Same h₂ h') (Ended h₀)
                  (serve_requests env serve new_mapping n buf c (new_mapping sizes)) _ h₂
                  (serve_requests_lem n (new_mapping sizes) h₂ (new_sized sizes))
                  λ m h' r.
                    finish_lem true true cancelled h₀ h' (λ e. cc) (Owes-Same 1 1 h₀ h₂ h' o₂ r.1))
        ]
      ]

  open_rtu_slave_lem :
      (n : ℕ) (sizes : SlaveDataSizeConfig) (rtu : RtuConfig) (h₀ h : History)
      → Same h₀ h
      → Returns (Ended h₀) (open_rtu_slave env serve new_mapping n buf sizes c rtu h)
  unfolding open_rtu_slave
  open_rtu_slave_lem n sizes rtu h₀ h s =
      let new = new_mapping_call sizes in
      let h₁ = followed_by env new h in
      let h₂ = followed_by env modbus_new h₁ in
      elim (Bool-cases (is_zero (env.answer h new).ret)) [
        | inl failed ↦
            rw (open_rtu_slave, ◌>>=◌, call, failed, branch)
              (finish_lem false false exited h₀ h₁ (λ e. cc)
                (record {
                  mappings = ground (arith, s.made₁, s.freed₁);
                  contexts = ground (arith, s.made₂, s.freed₂);
                }))
        | inr mapped ↦ elim (Bool-cases (is_zero (env.answer h₁ modbus_new).ret)) [
          | inl failed ↦
              rw (open_rtu_slave, ◌>>=◌, call, mapped, failed, branch)
                (finish_lem true false exited h₀ h₂ (λ e. cc)
                  (record {
                    mappings = ground (arith, s.made₁, s.freed₁);
                    contexts = ground (arith, s.made₂, s.freed₂);
                  }))
          | inr made ↦
              rw (open_rtu_slave, ◌>>=◌, call, mapped, made, branch)
                (run_rtu_slave_lem n sizes rtu h₀ h₂ (record {
                  mappings = ground (arith, s.made₁, s.freed₁);
                  contexts = ground (arith, s.made₂, s.freed₂);
                }))
        ]
      ]

  -- A slave over RTU from its start to its end: its device is there at the try `k`, and more tries
  -- than `k` are made. Then it does not wait for ever, and whichever step fails, and however many
  -- requests it serves before it is cancelled, no access leaves a buffer, and it releases the
  -- mapping and the context exactly as often as it made them.
  pub rtu_slave_thread_lem :
      (k w n : ℕ) (sizes : SlaveDataSizeConfig) (rtu : RtuConfig) (h : History)
      → k < w
      → IsThere env k h
      → Returns (Ended h) (rtu_slave_thread env serve new_mapping w n buf sizes c rtu h)
  unfolding rtu_slave_thread
  rtu_slave_thread_lem k w n sizes rtu h lt there =
      Returns-bind (λ found h'. (found ≡ true) × Same h h') (Ended h) (wait_for_device env w) _ h
        (wait_for_device_lem env k w h lt there)
        λ found h' r. rw (r.0, branch) (open_rtu_slave_lem n sizes rtu h h' r.1)
