-- ===== src/Slave/Tcp/Invariant.antt =====
-- The invariant of the loop of `startTcpSlaveThread`.
use revpi_modbus.Config.{ProcessImageConfiguration}
use revpi_modbus.Prelude.{
  leb→le, refl, lt→ltb, sym, zero, subst, ltb, ◌-◌, leb, ◌==◌, if◌then◌else◌, suc, ◌≢◌, ℕ, ◌+◌, ◌≤◌,
  ◌<◌, ◌≡◌, ◌⊎◌, inl, inr, true, some, List, length, Bool-cases, arith,
}
use revpi_modbus.Prelude.Int.{pos_part, is_minus_one, is_neg, pos, negsuc}
use revpi_modbus.External.{
  pure, modbus_set_socket, ◌>>=◌, followed_by, branch, Env, History, IsDocumented, accept_fd,
  close_fd, event,
}
use revpi_modbus.External.Reasoning.{Returns, Returns-bind, Returns-mono}
use revpi_modbus.Slave.{process_modbus_request, Mapping, Serve, modbus_tcp_max_adu_length}
use revpi_modbus.Slave.Access.{MappingIsSized}
use revpi_modbus.Slave.Request.{HeaderFits, KeepsSize, Processed, process_modbus_request_lem}
use revpi_modbus.Slave.Resources.{
  Same, Same-refl, Same-trans, Same-call, Same-event, Processed-Same,
}
use revpi_modbus.Slave.Tcp.{
  fd_set, Connections, FdSet, fd_setsize, serve_socket, serve_sockets, accept_connection,
  serve_client, with_fd, without_fd,
}

-- The set holds the server's socket, no descriptor above `fdmax`, and only such as it has bits for.
pub record ConnectionsAreValid (server : ℕ) (s : Connections) : Type 0 where
  pub listening : s.refset server ≡ true
  pub bounded : (fd : ℕ) → s.refset fd ≡ true → fd ≤ s.fdmax
  pub small : s.fdmax < fd_setsize
  pub sized : MappingIsSized s.mapping

-- What is left of a step of the loop: it makes and releases no mapping and no context.
abbrev pub Kept : ℕ → History → Connections → History → Type 0
Kept server h s h' = ConnectionsAreValid server s × Same h h'

-- Each descriptor that `accept` gives is one that an `fd_set` has a bit for.
abbrev pub AcceptsSmall : Env → Type 0
AcceptsSmall env =
    (h : History) (server : ℕ)
    → ((env.answer h (accept_fd server)).ret ≡ negsuc 0)
      ⊎ ((fd : ℕ) × ((env.answer h (accept_fd server)).ret ≡ pos fd) × (fd < fd_setsize))

module _ (env : Env) (doc : IsDocumented env) (header : HeaderFits env) (accepts : AcceptsSmall env)
    (serve : Serve) (keeps : KeepsSize serve) (c : ProcessImageConfiguration) (buf : List ℕ)
    (size : length buf ≡ modbus_tcp_max_adu_length) (server : ℕ) where
  with_fd_lem :
      (s : Connections) (fd : ℕ)
      → ConnectionsAreValid server s
      → fd < fd_setsize
      → ConnectionsAreValid server (record s {
        refset = with_fd s.refset fd;
        fdmax = if ltb s.fdmax fd then fd else s.fdmax;
      })
  unfolding with_fd
  with_fd_lem s fd v small = record {
    listening = ground (arith, v.listening);
    bounded = λ n e. ground (arith, v.bounded n);
    small = ground (arith, v.small);
    sized = v.sized;
  }

  without_fd_lem :
      (s : Connections) (fd : ℕ) (m : Mapping)
      → ConnectionsAreValid server s
      → fd ≢ server
      → MappingIsSized m
      → ConnectionsAreValid server (record {
        refset = without_fd s.refset fd;
        fdmax = if fd == s.fdmax then s.fdmax - 1 else s.fdmax;
        mapping = m;
      })
  unfolding without_fd
  without_fd_lem s fd m v other sized = record {
    listening = ground (arith, v.listening);
    bounded = λ n e. ground (arith, v.bounded n);
    small = ground (arith, v.small);
    sized = sized;
  }

  accept_connection_lem :
      (s : Connections) (h : History)
      → ConnectionsAreValid server s
      → Returns (λ s' h'. Kept server h s' h') (accept_connection env serve c buf server s h)
  unfolding accept_connection
  accept_connection_lem s h v = elim (accepts h server) [
    | inl refused ↦
        rw (refused, branch, Returns)
          (v, Same-call env (accept_fd server) h (refl, refl, refl, refl))
    | inr (fd, e, small) ↦
        subst
          (λ x.
            Returns (λ s' h'. Kept server h s' h')
              (branch (is_minus_one x) (pure s)
                (fd_set x s.refset >>= λ refset. pure (record s {
                  refset = refset;
                  fdmax = if ltb s.fdmax (pos_part x) then pos_part x else s.fdmax;
                }))
                (followed_by env (accept_fd server) h)))
          (sym e)
          (rw (lt→ltb fd fd_setsize small, Returns)
            (with_fd_lem s fd v small, Same-call env (accept_fd server) h (refl, refl, refl, refl)))
  ]

  serve_client_lem :
      (s : Connections) (fd : ℕ) (h : History)
      → ConnectionsAreValid server s
      → fd ≢ server
      → Returns (λ s' h'. Kept server h s' h') (serve_client env serve c buf server fd s h)
  unfolding serve_client
  serve_client_lem s fd h v other =
      let h₁ = followed_by env (modbus_set_socket fd) h in
      Returns-bind (Processed env doc c serve keeps buf s.mapping h₁) (λ s' h'. Kept server h s' h')
        (process_modbus_request env serve buf s.mapping c) _ h₁
        (process_modbus_request_lem env doc c serve keeps header buf s.mapping h₁ size v.sized)
        λ r h' p.
          let (sized, same) =
            Processed-Same env doc c serve keeps buf s.mapping h₁ h' r v.sized p in
          let so_far : Same h h' =
            Same-trans h h₁ h' (Same-call env (modbus_set_socket fd) h (refl, refl, refl, refl))
              same in
          elim (Bool-cases (is_neg r.0)) [
            | inl failed ↦
                rw (failed, branch, Returns)
                  (
                    without_fd_lem s fd r.1 v other sized,
                    Same-event h h' (event env (close_fd fd) h') (refl, refl, refl, refl) so_far,
                  )
            | inr fine ↦
                rw (fine, branch, Returns)
                  (
                    record {
                      listening = v.listening;
                      bounded = v.bounded;
                      small = v.small;
                      sized = sized;
                    },
                    so_far,
                  )
          ]

  serve_socket_lem :
      (rdset : FdSet) (s : Connections) (fd : ℕ) (h : History)
      → ConnectionsAreValid server s
      → Returns (λ s' h'. Kept server h s' h') (serve_socket env serve c buf server rdset fd s h)
  unfolding serve_socket
  serve_socket_lem rdset s fd h v = elim (Bool-cases (rdset fd)) [
    | inl ready ↦ elim (Bool-cases (fd == server)) [
      | inl e ↦ rw (ready, e, branch) (accept_connection_lem s h v)
      | inr e ↦ rw (ready, e, branch) (serve_client_lem s fd h v (ground arith))
    ]
    | inr idle ↦ rw (idle, branch, Returns) (v, Same-refl h)
  ]

  -- With descriptors below 1024 only, the inner loop ends within 1025 steps from descriptor 0 on,
  -- and after it the state is valid again, with no mapping or context made or released.
  pub serve_sockets_lem :
      (n fd : ℕ) (rdset : FdSet) (s : Connections) (h : History)
      → ConnectionsAreValid server s
      → fd ≤ fd_setsize
      → fd_setsize < n + fd
      → Returns
          (λ o h'. (s' : Connections) × (o ≡ some s') × Kept server h s' h')
          (serve_sockets env serve c buf server n fd rdset s h)
  unfolding serve_sockets
  serve_sockets_lem zero fd rdset s h v inside enough = absurd (omega arith)
  serve_sockets_lem (suc n) fd rdset s h v inside enough = elim (Bool-cases (leb fd s.fdmax)) [
    | inl more ↦
        rw (more, branch)
          (Returns-bind (λ s' h'. Kept server h s' h') _
            (serve_socket env serve c buf server rdset fd s) _ h (serve_socket_lem rdset s fd h v)
            λ s' h₁ kept.
              Returns-mono (λ o h'. (s'' : Connections) × (o ≡ some s'') × Kept server h₁ s'' h')
                (λ o h'. (s'' : Connections) × (o ≡ some s'') × Kept server h s'' h')
                (serve_sockets env serve c buf server n (fd + 1) rdset s' h₁)
                (serve_sockets_lem n (fd + 1) rdset s' h₁ kept.0
                  (omega (arith, v.small, leb→le fd s.fdmax more)) (omega arith))
                λ o h' r. (r.0, r.1, (r.2.0, Same-trans h h₁ h' kept.1 r.2.1)))
    | inr end ↦ rw (end, branch, Returns) (s, refl, (v, Same-refl h))
  ]
