-- ===== src/Slave/Request.antt =====
-- What a slave does with one request: `process_modbus_request`.
use revpi_modbus.Config.{ProcessImageConfiguration}
use revpi_modbus.Slave.Access.{
  write_modbus_data_lem, read_modbus_data_lem, PublishesOutputs, MappingIsSized, FillsInputs,
}
use revpi_modbus.Prelude.{
  sym, get_or, subst, if◌then◌else◌, refl, Bool-cases, ℕ, ◌≤◌, ◌<◌, ◌≡◌, ◌⊎◌, inl, inr, List,
  length, true, false, arith,
}
use revpi_modbus.Prelude.Int.{ℤ, pos, negsuc, is_minus_one, is_nonpos}
use revpi_modbus.External.{
  done, call, ◌>>=◌, Env, History, IsDocumented, followed_by, filled, modbus_receive,
  modbus_get_header_length, modbus_reply, branch,
}
use revpi_modbus.External.Reasoning.{
  Returns-both, Returns-mono, Returns, Returns-bind, fill-eq, length-fill, load-eq,
}
use revpi_modbus.Processor.Scope.{Extends, start}
use revpi_modbus.Slave.Areas.{inputs_read, outputs_written, inputs_read_lem, outputs_written_lem}
use revpi_modbus.Slave.{
  Mapping, Serve, write_modbus_data_to_process_image, read_modbus_data_from_process_image, refresh,
  replied, reply_to, process_modbus_request, load_at, modbus_tcp_max_adu_length, reads_inputs,
  writes_outputs,
}

load_at-eq :
    (buf : List ℕ) (r : ℤ) (n : ℕ) (h : History)
    → r ≡ pos n
    → n < length buf
    → load_at buf r h ≡ done (get_or buf n 0) h
load_at-eq buf r n h e lt = rw (e, load_at) (load-eq buf n h lt)

-- The header of a request, as libmodbus reports its length, leaves room for the function code.
abbrev pub HeaderFits : Env → Type 0
HeaderFits env =
    (h : History)
    → (n : ℕ) × ((env.answer h modbus_get_header_length).ret ≡ pos n)
      × (n < modbus_tcp_max_adu_length)

-- libmodbus keeps the size of the mapping when it answers a request.
abbrev pub KeepsSize : Serve → Type 0
KeepsSize serve =
    (h : History) (req : List ℕ) (m : Mapping) → MappingIsSized m → MappingIsSized (serve h req m)

-- What is done about a request that was received: if the function code reads inputs, the process
-- image is read into the mapping first, exactly as `inputs_read` says, else nothing; then the request
-- is answered; then, if that succeeded and the function code writes outputs, the mapping is written
-- to the process image, exactly as `outputs_written` says, else nothing. The result is -1 where the
-- answer fails, else 0.
pub record Answered (env : Env) (serve : Serve) (c : ProcessImageConfiguration) (m : Mapping)
    (fc : ℕ) (len : ℤ) (req : List ℕ) (h : History) (r : ℤ × Mapping) (h' : History) : Type 0 where
  pub refreshed : Mapping
  pub before_reply : History
  pub fills : Extends (FillsInputs m c) h before_reply
  pub fill :
      reads_inputs fc ≡ true
      → (refreshed ≡ (inputs_read env c m h).0) × (before_reply ≡ (inputs_read env c m h).1)
  pub no_fill : reads_inputs fc ≡ false → (before_reply ≡ h) × (refreshed ≡ m)
  pub mapping : r.1 ≡ serve before_reply req refreshed
  pub sized : MappingIsSized r.1
  pub publishes :
      Extends (PublishesOutputs r.1 c) (followed_by env (modbus_reply len req) before_reply) h'
  pub publish :
      writes_outputs fc ≡ true
      → r.0 ≡ pos 0
      → h' ≡ outputs_written env c r.1 (followed_by env (modbus_reply len req) before_reply)
  pub no_publish :
      (writes_outputs fc ≡ false) ⊎ (r.0 ≡ negsuc 0)
      → h' ≡ followed_by env (modbus_reply len req) before_reply
  pub result : r.0 ≡ (
      if is_minus_one (env.answer before_reply (modbus_reply len req)).ret then negsuc 0 else pos 0)

module _ (env : Env) (doc : IsDocumented env) (c : ProcessImageConfiguration) (serve : Serve)
    (keeps : KeepsSize serve) where
  -- What is left where the inputs are brought up to date, or need not be.
  abbrev Refreshed : ℕ → Mapping → History → Mapping → History → Type 0
  Refreshed fc m h m' h' =
      MappingIsSized m'
      × Extends (FillsInputs m c) h h'
      × (reads_inputs fc ≡ true
          → (m' ≡ (inputs_read env c m h).0) × (h' ≡ (inputs_read env c m h).1))
      × (reads_inputs fc ≡ false → (h' ≡ h) × (m' ≡ m))

  -- What is left after the answer, whose result is `ret`.
  abbrev Replied : ℕ → ℤ → Mapping → History → ℤ × Mapping → History → Type 0
  Replied fc ret m h r h' =
      (r.1 ≡ m)
      × Extends (PublishesOutputs m c) h h'
      × ((writes_outputs fc ≡ false) ⊎ (r.0 ≡ negsuc 0) → h' ≡ h)
      × (r.0 ≡ (if is_minus_one ret then negsuc 0 else pos 0))
      × (writes_outputs fc ≡ true → r.0 ≡ pos 0 → h' ≡ outputs_written env c m h)

  refresh_lem :
      (fc : ℕ) (m : Mapping) (h : History)
      → MappingIsSized m
      → Returns (λ m' h'. Refreshed fc m h m' h') (refresh env fc m c h)
  unfolding refresh
  refresh_lem fc m h sized = elim (Bool-cases (reads_inputs fc)) [
    | inl reads ↦
        rw (reads, branch)
          (Returns-bind
            (λ r h'.
              (MappingIsSized r.1 × Extends (FillsInputs m c) h h')
              × ((r.1 ≡ (inputs_read env c m h).0) × (h' ≡ (inputs_read env c m h).1)))
            _ (read_modbus_data_from_process_image env m c) _ h
            (Returns-both (λ r h'. MappingIsSized r.1 × Extends (FillsInputs m c) h h')
              (λ r h'. (r.1 ≡ (inputs_read env c m h).0) × (h' ≡ (inputs_read env c m h).1))
              (read_modbus_data_from_process_image env m c h)
              (read_modbus_data_lem env doc c m h sized)
              (inputs_read_lem env c doc m h (inputs_read env c m h) sized refl))
            λ r h' kept. (kept.0.0, kept.0.1, (λ e. kept.1), λ e. absurd (ground arith)))
    | inr skips ↦
        rw (skips, branch, Returns) (sized, start, (λ e. absurd (ground arith)), λ e. (refl, refl))
  ]

  replied_lem :
      (fc : ℕ) (ret : ℤ) (m : Mapping) (h : History)
      → MappingIsSized m
      → Returns (λ r h'. Replied fc ret m h r h') (replied env fc ret m c h)
  unfolding replied
  replied_lem fc ret m h sized = elim (Bool-cases (is_minus_one ret)) [
    | inl failed ↦
        rw (failed, branch, Returns)
          (refl, start, (λ e. refl), ground arith, λ w e. absurd (ground arith))
    | inr fine ↦ elim (Bool-cases (writes_outputs fc)) [
      | inl writes ↦
          rw (fine, writes, branch)
            (Returns-bind
              (λ s h'. Extends (PublishesOutputs m c) h h' × (h' ≡ outputs_written env c m h)) _
              (write_modbus_data_to_process_image env m c) _ h
              (Returns-both (λ s h'. Extends (PublishesOutputs m c) h h')
                (λ s h'. h' ≡ outputs_written env c m h)
                (write_modbus_data_to_process_image env m c h)
                (write_modbus_data_lem env doc c m h sized)
                (outputs_written_lem env c doc m h (outputs_written env c m h) sized refl))
              λ s h' own. (refl, own.0, (λ e. absurd (ground arith)), ground arith, λ w e. own.1))
      | inr skips ↦
          rw (fine, skips, branch, Returns)
            (refl, start, (λ e. refl), ground arith, λ w e. absurd (ground arith))
    ]
  ]

  answered_lem :
      (fc : ℕ) (len : ℤ) (req : List ℕ) (m : Mapping) (h : History)
      → MappingIsSized m
      → Returns
          (Answered env serve c m fc len req h)
          ((refresh env fc m c >>= λ m'. reply_to env serve fc len req m' c) h)
  unfolding reply_to
  answered_lem fc len req m h sized =
      Returns-bind (λ m' h'. Refreshed fc m h m' h') (Answered env serve c m fc len req h)
        (refresh env fc m c) _ h (refresh_lem fc m h sized)
        λ m' b kept.
          let m'' = serve b req m' in
          Returns-mono
            (Replied fc (env.answer b (modbus_reply len req)).ret m''
              (followed_by env (modbus_reply len req) b))
            (Answered env serve c m fc len req h)
            (replied env fc (env.answer b (modbus_reply len req)).ret m'' c
              (followed_by env (modbus_reply len req) b))
            (replied_lem fc (env.answer b (modbus_reply len req)).ret m''
              (followed_by env (modbus_reply len req) b) (keeps b req m' kept.0))
            λ r h' done'. record {
              refreshed = m';
              before_reply = b;
              fills = kept.1;
              fill = kept.2;
              no_fill = kept.3;
              mapping = done'.0;
              sized = subst MappingIsSized (sym done'.0) (keeps b req m' kept.0);
              publishes =
                  subst
                    (λ x.
                      Extends (PublishesOutputs x c) (followed_by env (modbus_reply len req) b) h')
                    (sym done'.0) done'.1;
              publish = λ w e.
                  subst
                    (λ x. h' ≡ outputs_written env c x (followed_by env (modbus_reply len req) b))
                    (sym done'.0) (done'.4 w e);
              no_publish = done'.2;
              result = done'.3;
            }

  -- How a request ends: -1 or 0 and an unchanged mapping where nothing was received, else as
  -- `Answered` says, for the function code behind the header.
  abbrev pub Processed : List ℕ → Mapping → History → (ℤ × Mapping) → History → Type 0
  Processed buf m h r h' =
      let received = env.answer h modbus_receive in
      let h₁ = followed_by env modbus_receive h in
      let req = filled buf received in
      ((is_nonpos received.ret ≡ true)
        × (r ≡ (if is_minus_one received.ret then negsuc 0 else pos 0, m))
        × (h' ≡ h₁))
      ⊎ ((is_nonpos received.ret ≡ false)
          × ((n : ℕ) × ((env.answer h₁ modbus_get_header_length).ret ≡ pos n)
              × Answered env serve c m (get_or req n 0) received.ret req
                  (followed_by env modbus_get_header_length h₁) r h'))

  -- For documented libraries and a mapping as long as its counts say, `process_modbus_request` ends,
  -- with no access outside a buffer, and what it did is as `Processed` says.
  pub process_modbus_request_lem :
      HeaderFits env
      → (buf : List ℕ) (m : Mapping) (h : History) → length buf ≡ modbus_tcp_max_adu_length
      → MappingIsSized m
      → Returns (Processed buf m h) (process_modbus_request env serve buf m c h)
  unfolding process_modbus_request
  process_modbus_request_lem header buf m h size sized =
      let received = env.answer h modbus_receive in
      let h₁ = followed_by env modbus_receive h in
      let req = filled buf received in
      let le : length received.out ≤ length buf = omega (arith, doc.fits h modbus_receive, size) in
      let (n, is_n, small) = header h₁ in
      let h₂ = followed_by env modbus_get_header_length h₁ in
      let inside : n < length req = omega (arith, length-fill buf received.out le, size) in
      rw (process_modbus_request, ◌>>=◌, call, fill-eq buf received.out h₁ le)
        (elim (Bool-cases (is_nonpos received.ret)) [
          | inl silent ↦
              rw (silent, branch)
                (elim (Bool-cases (is_minus_one received.ret)) [
                  | inl failed ↦ rw (failed, branch, Returns) (inl (silent, ground arith, refl))
                  | inr fine ↦ rw (fine, branch, Returns) (inl (silent, ground arith, refl))
                ])
          | inr some_bytes ↦
              rw
                (
                  some_bytes,
                  branch,
                  call,
                  ◌>>=◌,
                  load_at-eq req (env.answer h₁ modbus_get_header_length).ret n h₂ is_n inside,
                )
                (Returns-mono (Answered env serve c m (get_or req n 0) received.ret req h₂)
                  (Processed buf m h)
                  ((refresh env (get_or req n 0) m c >>= λ m'.
                      reply_to env serve (get_or req n 0) received.ret req m' c)
                    h₂)
                  (answered_lem (get_or req n 0) received.ret req m h₂ sized)
                  λ r h' a. inr (some_bytes, (n, is_n, a)))
        ])
