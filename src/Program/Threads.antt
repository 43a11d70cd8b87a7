-- ===== src/Program/Threads.antt =====
-- The parts of a pass of a main program: what they start, cancel and free.
use revpi_modbus.Slave.Resources.{total}
use revpi_modbus.Program.{
  put, cancel_masters, wait_for_reset, free_modbus_master_config_data, free_actions, start_threads,
}
use revpi_modbus.Prelude.{
  Bool, ℕ, zero, suc, ◌+◌, ◌<◌, ◌≡◌, ◌==◌, if◌then◌else◌, refl, true, Bool-cases, inl, inr, List,
  [], ◌∷◌, length, arith,
}
use revpi_modbus.Prelude.Int.{ℤ}
use revpi_modbus.Config.{MasterConfiguration, ModbusAction}
use revpi_modbus.External.{
  Handle, null, thread, Reply, event, Env, Event, History, branch, followed_by, pthread_create,
  pthread_cancel, wait_for_event, free_entry, free_action,
}
use revpi_modbus.External.Reasoning.{Returns-mono, Returns, Returns-bind}

-- 1 where two elements of the array are the same.
abbrev pub hit : Handle → Handle → ℕ
hit null null = 1
hit null (thread i) = 0
hit (thread j) null = 0
hit (thread j) (thread i) = if j == i then 1 else 0

-- One for each call of `pthread_create` after which `x` stands in its place of the array, for each
-- call that cancels `x`, and for each that frees an entry.
abbrev pub puts : (left : Reply → Handle) → Handle → Event → ℕ
puts left x e = elim e.call [ pthread_create i ↦ hit (put left i e.reply) x | _ ↦ 0 ]

abbrev pub cancels : Handle → Event → ℕ
cancels x e = elim e.call [ pthread_cancel y ↦ hit y x | _ ↦ 0 ]

abbrev pub frees_entry : Event → ℕ
frees_entry e = elim e.call [ free_entry ↦ 1 | _ ↦ 0 ]

-- How often `x` stands in the array, and what of it is not 0.
abbrev pub uses : Handle → List Handle → ℕ
uses x [] = 0
uses x (y ∷ rest) = hit y x + uses x rest

abbrev pub threads_of : List Handle → List Handle
threads_of [] = []
threads_of (thread i ∷ rest) = thread i ∷ threads_of rest
threads_of (null ∷ rest) = threads_of rest

pub uses-thread :
    (i : ℕ) (handles : List Handle) → uses (thread i) (threads_of handles) ≡ uses (thread i) handles
uses-thread i [] = refl
uses-thread i (thread j ∷ rest) = omega (arith, uses-thread i rest)
uses-thread i (null ∷ rest) = omega (arith, uses-thread i rest)

pub uses-null : (handles : List Handle) → uses null (threads_of handles) ≡ 0
uses-null [] = refl
uses-null (thread j ∷ rest) = omega (arith, uses-null rest)
uses-null (null ∷ rest) = uses-null rest

-- What the calls between two histories started, cancelled and freed.
pub record Did (left : Reply → Handle) (starts stops : Handle → ℕ) (entries : ℕ) (h h' : History)
    : Type 0 where
  pub created_now : (x : Handle) → total (puts left x) h' ≡ total (puts left x) h + starts x
  pub cancelled_now : (x : Handle) → total (cancels x) h' ≡ total (cancels x) h + stops x
  pub freed_now : total frees_entry h' ≡ total frees_entry h + entries

abbrev pub none_of : Handle → ℕ
none_of i = 0

-- A call before, which starts, cancels and frees none of what is counted.
pub Did-after :
    (left : Reply → Handle) (s t : Handle → ℕ) (n : ℕ) (e : Event) (h h' : History)
    → ((x : Handle) → (puts left x e ≡ 0) × (cancels x e ≡ 0))
    → frees_entry e ≡ 0
    → Did left s t n (e ∷ h) h'
    → Did left s t n h h'
Did-after left s t n e h h' quiet kept d = record {
  created_now = λ i. omega (arith, (quiet i).0, d.created_now i);
  cancelled_now = λ i. omega (arith, (quiet i).1, d.cancelled_now i);
  freed_now = omega (arith, kept, d.freed_now);
}

pub Did-seq :
    (left : Reply → Handle) (s t s' t' : Handle → ℕ) (n n' : ℕ) (h₁ h₂ h₃ : History)
    → Did left s t n h₁ h₂
    → Did left s' t' n' h₂ h₃
    → Did left (λ i. s i + s' i) (λ i. t i + t' i) (n + n') h₁ h₃
Did-seq left s t s' t' n n' h₁ h₂ h₃ d d' = record {
  created_now = λ i. omega (arith, d.created_now i, d'.created_now i);
  cancelled_now = λ i. omega (arith, d.cancelled_now i, d'.cancelled_now i);
  freed_now = omega (arith, d.freed_now, d'.freed_now);
}

module _ (env : Env) (reset : ℤ → Bool) where
  -- The history after `k` events.
  abbrev pub awaited : ℕ → History → History
  awaited zero h = h
  awaited (suc k) h = awaited k (followed_by env wait_for_event h)

  -- Among `w` events, from any moment on, there is a reset.
  abbrev pub ResetsWithin : ℕ → Type 0
  ResetsWithin w =
      (h : History)
      → (k : ℕ) × (k < w) × (reset (env.answer (awaited k h) wait_for_event).ret ≡ true)

module _ (env : Env) (reset : ℤ → Bool) (left : Reply → Handle) where
  pub Did-nothing : (h : History) → Did left none_of none_of 0 h h
  Did-nothing h = record {
    created_now = λ i. omega arith;
    cancelled_now = λ i. omega arith;
    freed_now = omega arith;
  }

  Did-event : (h : History) → Did left none_of none_of 0 h (followed_by env wait_for_event h)
  Did-event h = record {
    created_now = λ i. omega arith;
    cancelled_now = λ i. omega arith;
    freed_now = omega arith;
  }

  pub start_threads_lem :
      {A : Type 0} (k : ℕ) (configs : List A) (h : History)
      → Returns
          (λ handles h'. Did left (λ x. uses x handles) none_of 0 h h')
          (start_threads env reset left k configs h)
  unfolding start_threads
  start_threads_lem k [] h = Did-nothing h
  start_threads_lem {A} k (c ∷ rest) h =
      let h₁ = followed_by env (pthread_create k) h in
      Returns-bind (λ handles h'. Did left (λ x. uses x handles) none_of 0 h₁ h') _
        (start_threads env reset left (suc k) rest) _ h₁ (start_threads_lem (suc k) rest h₁)
        λ handles h' d. record {
          created_now = λ x. omega (arith, d.created_now x);
          cancelled_now = λ x. omega (arith, d.cancelled_now x);
          freed_now = omega (arith, d.freed_now);
        }

  pub cancel_masters_lem :
      (handles : List Handle) (h : History)
      → Returns
          (λ u h'. Did left none_of (λ x. uses x (threads_of handles)) 0 h h')
          (cancel_masters env reset handles h)
  unfolding cancel_masters
  cancel_masters_lem [] h = Did-nothing h
  cancel_masters_lem (null ∷ rest) h = cancel_masters_lem rest h
  cancel_masters_lem (thread j ∷ rest) h =
      let h₁ = followed_by env (pthread_cancel (thread j)) h in
      Returns-mono (λ u h'. Did left none_of (λ x. uses x (threads_of rest)) 0 h₁ h') _
        (cancel_masters env reset rest h₁) (cancel_masters_lem rest h₁)
        λ u h' d. record {
          created_now = λ x. omega (arith, d.created_now x);
          cancelled_now = λ x. omega (arith, d.cancelled_now x);
          freed_now = omega (arith, d.freed_now);
        }

  free_actions_lem :
      (actions : List ModbusAction) (h : History)
      → Returns (λ u h'. Did left none_of none_of 0 h h') (free_actions env reset actions h)
  unfolding free_actions
  free_actions_lem [] h = Did-nothing h
  free_actions_lem (a ∷ rest) h =
      let h₁ = followed_by env free_action h in
      Returns-mono (λ u h'. Did left none_of none_of 0 h₁ h') _ (free_actions env reset rest h₁)
        (free_actions_lem rest h₁)
        λ u h' d.
          Did-after left none_of none_of 0 (event env free_action h) h h' (λ i. (refl, refl)) refl d

  pub free_modbus_master_config_data_lem :
      (configs : List MasterConfiguration) (h : History)
      → Returns
          (λ u h'. Did left none_of none_of (length configs) h h')
          (free_modbus_master_config_data env reset configs h)
  unfolding free_modbus_master_config_data
  free_modbus_master_config_data_lem [] h = Did-nothing h
  free_modbus_master_config_data_lem (c ∷ rest) h =
      Returns-bind (λ u h'. Did left none_of none_of 0 h h') _
        (free_actions env reset c.action_list) _ h (free_actions_lem c.action_list h)
        λ u h₁ d.
          let h₂ = followed_by env free_entry h₁ in
          Returns-mono (λ u h'. Did left none_of none_of (length rest) h₂ h') _
            (free_modbus_master_config_data env reset rest h₂)
            (free_modbus_master_config_data_lem rest h₂)
            λ u h' d'. record {
              created_now = λ i. omega (arith, d.created_now i, d'.created_now i);
              cancelled_now = λ i. omega (arith, d.cancelled_now i, d'.cancelled_now i);
              freed_now = omega (arith, d.freed_now, d'.freed_now);
            }

  pub wait_for_reset_lem :
      (k w : ℕ) (h : History)
      → k < w
      → reset (env.answer (awaited env reset k h) wait_for_event).ret ≡ true
      → Returns
          (λ came h'. (came ≡ true) × Did left none_of none_of 0 h h')
          (wait_for_reset env reset w h)
  unfolding wait_for_reset
  wait_for_reset_lem k zero h lt comes = absurd (omega arith)
  wait_for_reset_lem zero (suc w) h lt comes = rw (comes, branch, Returns) (refl, Did-event h)
  wait_for_reset_lem (suc k) (suc w) h lt comes =
      let h₁ = followed_by env wait_for_event h in
      elim (Bool-cases (reset (env.answer h wait_for_event).ret)) [
        | inl now ↦ rw (now, branch, Returns) (refl, Did-event h)
        | inr later ↦
            rw (later, branch)
              (Returns-mono (λ came h'. (came ≡ true) × Did left none_of none_of 0 h₁ h') _
                (wait_for_reset env reset w h₁) (wait_for_reset_lem k w h₁ (omega arith) comes)
                λ came h' r. (
                  r.0,
                  Did-after left none_of none_of 0 (event env wait_for_event h) h h'
                      (λ i. (refl, refl)) refl r.1,
                ))
      ]
