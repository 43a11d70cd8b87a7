-- ===== src/Slave/Served.antt =====
-- A slave over TCP from its start to its end.
use revpi_modbus.Prelude.{
  ap, refl, none, not, get_or, sym, subst, ◌==◌, zero, suc, ℕ, ◌+◌, ◌<◌, ◌≡◌, ◌≢◌, ◌⊎◌, inl, inr,
  true, false, some, Option, List, length, Bool-cases, lt→ltb, arith,
}
use revpi_modbus.Prelude.Int.{ℤ, pos, negsuc, is_zero, is_minus_one}
use revpi_modbus.Config.{SlaveDataSizeConfig, ProcessImageConfiguration, TcpConfig}
use revpi_modbus.External.{
  pure, ◌>>◌, ◌>>=◌, call, branch, followed_by, Env, History, IsDocumented, modbus_listen,
  modbus_new, select_fds, sleep_for, close_fd,
}
use revpi_modbus.External.Reasoning.{Returns-mono, Returns-bind, Returns}
use revpi_modbus.Slave.{release_slave, modbus_tcp_max_adu_length, Mapping, Serve}
use revpi_modbus.Slave.Access.{MappingIsSized}
use revpi_modbus.Slave.Request.{KeepsSize, HeaderFits}
use revpi_modbus.Slave.Tcp.{
  FdSet, Connections, fd_setsize, fd_set, with_fd, serve_round, serve_sockets, close_sockets,
  cleanup_tcp_slave_thread,
}
use revpi_modbus.Slave.Resources.{Same, Same-refl, Same-trans, Same-call, Owes, Owes-Same}
use revpi_modbus.Slave.Released.{release_slave_lem, finish_lem}
use revpi_modbus.Slave.Tcp.Invariant.{Kept, ConnectionsAreValid, AcceptsSmall, serve_sockets_lem}
use revpi_modbus.Slave.Threads.{
  ThreadState, exited, waiting, new_mapping_call, listen_for_masters, serve_rounds, run_tcp_slave,
  tcp_slave_thread,
}

-- The descriptor that `modbus_tcp_listen` gives is one that an `fd_set` has a bit for.
abbrev pub ListensSmall : Env → Type 0
ListensSmall env =
    (h : History) (n : ℕ)
    → ((env.answer h (modbus_listen n)).ret ≡ negsuc 0)
      ⊎ ((fd : ℕ) × ((env.answer h (modbus_listen n)).ret ≡ pos fd) × (fd < fd_setsize))

module _ (env : Env) where
  -- The history after `k` tries to listen in vain.
  abbrev pub listened : (connections k : ℕ) → History → History
  listened connections zero h = h
  listened connections (suc k) h = listened connections k (
      followed_by env (sleep_for (record { tv_sec = 5; tv_nsec = 0 }))
        (followed_by env (modbus_listen connections) h))

  -- The history when the mapping and the context are made.
  abbrev pub prepared : SlaveDataSizeConfig → History → History
  prepared sizes h = followed_by env modbus_new (followed_by env (new_mapping_call sizes) h)

module _ (env : Env) (doc : IsDocumented env) (header : HeaderFits env) (accepts : AcceptsSmall env)
    (listens : ListensSmall env) (serve : Serve) (keeps : KeepsSize serve)
    (new_mapping : SlaveDataSizeConfig → Mapping)
    (new_sized : (s : SlaveDataSizeConfig) → MappingIsSized (new_mapping s)) (buf : List ℕ)
    (size : length buf ≡ modbus_tcp_max_adu_length) (c : ProcessImageConfiguration) where
  -- The socket, with no mapping or context made or released since.
  abbrev pub Listening : History → Option ℤ → History → Type 0
  Listening h r h' = (fd : ℕ) × (r ≡ some (pos fd)) × (fd < fd_setsize) × Same h h'

  listen_for_masters_lem :
      (k w connections : ℕ) (h : History)
      → k < w
      → is_minus_one (env.answer (listened env connections k h) (modbus_listen connections)).ret
        ≡ false
      → Returns
          (λ r h'. Listening h r h')
          (listen_for_masters env serve new_mapping w connections h)
  unfolding listen_for_masters
  listen_for_masters_lem k zero connections h lt there = absurd (omega arith)
  listen_for_masters_lem zero (suc w) connections h lt there = elim (listens h connections) [
    | inl failed ↦
        absurd (subst (λ (r : ℤ). is_minus_one r ≡ false → ⊥) (sym failed) (λ e. cc) there)
    | inr (fd, is, small) ↦
        rw (is, branch, Returns)
          (
            fd,
            ap some is,
            small,
            Same-call env (modbus_listen connections) h (refl, refl, refl, refl),
          )
  ]
  listen_for_masters_lem (suc k) (suc w) connections h lt there = elim (listens h connections) [
    | inl failed ↦
        let pause = sleep_for (record { tv_sec = 5; tv_nsec = 0 }) in
        let h₁ = followed_by env (modbus_listen connections) h in
        let h₂ = followed_by env pause h₁ in
        let same : Same h h₂ =
          Same-trans h h₁ h₂ (Same-call env (modbus_listen connections) h (refl, refl, refl, refl))
            (Same-call env pause h₁ (refl, refl, refl, refl)) in
        rw (failed, branch)
          (Returns-mono (λ r h'. Listening h₂ r h') (λ r h'. Listening h r h')
            (listen_for_masters env serve new_mapping w connections h₂)
            (listen_for_masters_lem k w connections h₂ (omega arith) there)
            λ r h' l. (l.0, l.1, l.2, Same-trans h h₂ h' same l.3))
    | inr (fd, is, small) ↦
        rw (is, branch, Returns)
          (
            fd,
            ap some is,
            small,
            Same-call env (modbus_listen connections) h (refl, refl, refl, refl),
          )
  ]

  -- `select` fails, or a round leaves a valid state.
  abbrev pub Served : ℕ → History → Option Connections → History → Type 0
  Served server h o h' =
      ((o ≡ none) × Same h h') ⊎ ((s' : Connections) × (o ≡ some s') × Kept server h s' h')

  serve_round_lem :
      (server : ℕ) (s : Connections) (h : History)
      → ConnectionsAreValid server s
      → Returns (λ o h'. Served server h o h') (serve_round env serve c buf server s h)
  unfolding serve_round
  serve_round_lem server s h v =
      let select = select_fds (s.fdmax + 1) in
      let ready : FdSet = λ fd. not (get_or (env.answer h select).out fd 0 == 0) in
      let h₁ = followed_by env select h in
      let h₂ = followed_by env (close_fd server) h₁ in
      let same : Same h h₁ = Same-call env select h (refl, refl, refl, refl) in
      elim (Bool-cases (is_minus_one (env.answer h select).ret)) [
        | inl failed ↦
            rw (failed, branch, Returns)
              (inl (
                refl,
                Same-trans h h₁ h₂ same
                    (Same-call env (close_fd server) h₁ (refl, refl, refl, refl)),
              ))
        | inr fine ↦
            rw (fine, branch)
              (Returns-mono (λ o h'. (s' : Connections) × (o ≡ some s') × Kept server h₁ s' h')
                (λ o h'. Served server h o h')
                (serve_sockets env serve c buf server (fd_setsize + 1) 0 ready s h₁)
                (serve_sockets_lem env doc header accepts serve keeps c buf size server
                  (fd_setsize + 1) 0 ready s h₁ v (omega arith) (omega arith))
                λ o h' r. inr (r.0, r.1, (r.2.0, Same-trans h h₁ h' same r.2.1)))
      ]

  serve_rounds_lem :
      (n server : ℕ) (s : Connections) (h : History)
      → ConnectionsAreValid server s
      → Returns
          (λ r h'. (r.0 ≢ waiting) × Same h h')
          (serve_rounds env serve new_mapping n c buf server s h)
  unfolding serve_rounds
  serve_rounds_lem zero server s h v = (λ e. cc, Same-refl h)
  serve_rounds_lem (suc n) server s h v =
      Returns-bind (λ o h'. Served server h o h') (λ r h'. (r.0 ≢ waiting) × Same h h')
        (serve_round env serve c buf server s) _ h (serve_round_lem server s h v)
        λ o h₁ r. elim r [
          | inl (failed, same) ↦ rw (failed, Returns) (λ e. cc, same)
          | inr (s', is, kept) ↦ rw is (
              Returns-mono (λ r h'. (r.0 ≢ waiting) × Same h₁ h')
                (λ r h'. (r.0 ≢ waiting) × Same h h')
                (serve_rounds env serve new_mapping n c buf server s' h₁)
                (serve_rounds_lem n server s' h₁ kept.0)
                λ r h' ends. (ends.0, Same-trans h h₁ h' kept.1 ends.1))
        ]

  abbrev first_connections : ℕ → SlaveDataSizeConfig → Connections
  first_connections fd sizes = record {
    refset = with_fd (λ x. false) fd;
    fdmax = fd;
    mapping = new_mapping sizes;
  }

  first_connections_lem :
      (fd : ℕ) (sizes : SlaveDataSizeConfig)
      → fd < fd_setsize
      → ConnectionsAreValid fd (first_connections fd sizes)
  unfolding with_fd
  first_connections_lem fd sizes small = record {
    listening = ground arith;
    bounded = λ n e. ground arith;
    small = small;
    sized = new_sized sizes;
  }

  close_sockets_lem :
      (n fd server : ℕ) (set : FdSet) (h : History)
      → Returns (λ u h'. Same h h') (close_sockets env serve c buf server n fd set h)
  unfolding close_sockets
  close_sockets_lem zero fd server set h = Same-refl h
  close_sockets_lem (suc n) fd server set h = elim (Bool-cases (set fd)) [
    | inl is_open ↦
        let h₁ = followed_by env (close_fd fd) h in
        rw (is_open, branch)
          (Returns-mono (λ u h'. Same h₁ h') (λ u h'. Same h h')
            (close_sockets env serve c buf server n (fd + 1) set h₁)
            (close_sockets_lem n (fd + 1) server set h₁)
            λ u h' same.
              Same-trans h h₁ h' (Same-call env (close_fd fd) h (refl, refl, refl, refl)) same)
    | inr shut ↦ rw (shut, branch) (close_sockets_lem n (fd + 1) server set h)
  ]

  -- The cleanup handler releases the mapping and the context.
  cleanup_lem :
      (server : ℕ) (set : FdSet) (s : ThreadState) (h₀ h : History)
      → s ≢ waiting
      → Owes 1 1 h₀ h
      → Returns
          (λ s' h'. (s' ≢ waiting) × Owes 0 0 h₀ h')
          ((cleanup_tcp_slave_thread env serve c buf server true true set >> pure s) h)
  unfolding cleanup_tcp_slave_thread
  cleanup_lem server set s h₀ h ends o =
      Returns-bind (λ u h'. Owes 0 0 h₀ h') (λ s' h'. (s' ≢ waiting) × Owes 0 0 h₀ h')
        (cleanup_tcp_slave_thread env serve c buf server true true set) _ h
        (Returns-bind (λ u h'. Owes 0 0 h₀ h') (λ u h'. Owes 0 0 h₀ h')
          (release_slave env true true) _ h
          (release_slave_lem env doc header serve keeps new_mapping new_sized buf size c true true
            h₀ h o)
          λ u h₁ owed.
            Returns-mono (λ u h'. Same h₁ h') (λ u h'. Owes 0 0 h₀ h')
              (close_sockets env serve c buf server fd_setsize 0 set h₁)
              (close_sockets_lem fd_setsize 0 server set h₁)
              λ u h' same. Owes-Same 0 0 h₀ h₁ h' owed same)
        λ u h' owed. (ends, owed)

  run_tcp_slave_lem :
      (n fd : ℕ) (sizes : SlaveDataSizeConfig) (h₀ h : History)
      → fd < fd_setsize
      → Owes 1 1 h₀ h
      → Returns
          (λ s h'. (s ≢ waiting) × Owes 0 0 h₀ h')
          (run_tcp_slave env serve new_mapping n buf sizes c (pos fd) h)
  unfolding run_tcp_slave
  run_tcp_slave_lem n fd sizes h₀ h small o =
      rw (run_tcp_slave, ◌>>=◌, fd_set, lt→ltb fd fd_setsize small)
        (Returns-bind (λ r h'. (r.0 ≢ waiting) × Same h h') (λ s h'. (s ≢ waiting) × Owes 0 0 h₀ h')
          (serve_rounds env serve new_mapping n c buf fd (first_connections fd sizes)) _ h
          (serve_rounds_lem n fd (first_connections fd sizes) h
            (first_connections_lem fd sizes small))
          λ r h' ends. cleanup_lem fd r.1 r.0 h₀ h' ends.0 (Owes-Same 1 1 h₀ h h' o ends.1))

  -- A slave over TCP from its start to its end, with documented libraries whose calls give
  -- descriptors that an `fd_set` has a bit for: `modbus_tcp_listen` succeeds at the try `k` after the
  -- mapping and the context are made, if not before, and more tries than `k` are made. Then it does
  -- not wait for ever, and whichever calls fail, and however many rounds it serves its connections,
  -- no access leaves a buffer or the set of descriptors, until it exits or is cancelled; and then it
  -- has released the mapping and the context exactly as often as it made them.
  pub tcp_slave_thread_lem :
      (k w n : ℕ) (sizes : SlaveDataSizeConfig) (tcp : TcpConfig) (h : History)
      → k < w
      → is_minus_one
          (env.answer
            (listened env tcp.max_modbus_connections k (prepared env sizes h))
            (modbus_listen tcp.max_modbus_connections)).ret
        ≡ false
      → Returns
          (λ s h'. (s ≢ waiting) × Owes 0 0 h h')
          (tcp_slave_thread env serve new_mapping w n buf sizes c tcp h)
  unfolding tcp_slave_thread
  tcp_slave_thread_lem k w n sizes tcp h lt there =
      let new = new_mapping_call sizes in
      let h₁ = followed_by env new h in
      let h₂ = prepared env sizes h in
      elim (Bool-cases (is_zero (env.answer h new).ret)) [
        | inl failed ↦
            rw (tcp_slave_thread, ◌>>=◌, call, failed, branch)
              (finish_lem env doc header serve keeps new_mapping new_sized buf size c false false
                exited h h₁ (λ e. cc) (record { mappings = ground arith; contexts = ground arith }))
        | inr mapped ↦ elim (Bool-cases (is_zero (env.answer h₁ modbus_new).ret)) [
          | inl failed ↦
              rw (tcp_slave_thread, ◌>>=◌, call, mapped, failed, branch)
                (finish_lem env doc header serve keeps new_mapping new_sized buf size c true false
                  exited h h₂ (λ e. cc)
                  (record { mappings = ground arith; contexts = ground arith }))
          | inr made ↦
              let owed : Owes 1 1 h h₂ = record {
                mappings = ground arith;
                contexts = ground arith;
              } in
              rw (tcp_slave_thread, ◌>>=◌, call, mapped, made, branch)
                (Returns-bind (λ r h'. Listening h₂ r h') (λ s h'. (s ≢ waiting) × Owes 0 0 h h')
                  (listen_for_masters env serve new_mapping w tcp.max_modbus_connections) _ h₂
                  (listen_for_masters_lem k w tcp.max_modbus_connections h₂ lt there)
                  λ r h' found. rw (found.1) (
                    run_tcp_slave_lem n found.0 sizes h h' found.2
                      (Owes-Same 1 1 h h₂ h' owed found.3)))
        ]
      ]
