-- ===== src/Slave/Resources.antt =====
-- What a thread allocates and releases, counted in the history of its calls.
use revpi_modbus.Slave.Request.{Processed, Answered, KeepsSize}
use revpi_modbus.Slave.Access.{MappingIsSized, PublishesOutputs, FillsInputs}
use revpi_modbus.Config.{ProcessImageConfiguration}
use revpi_modbus.Processor.Scope.{start, after, Extends}
use revpi_modbus.Slave.{Serve, Mapping}
use revpi_modbus.Prelude.{
  inr, sym, subst, inl, List, ℕ, ◌+◌, ◌≡◌, if◌then◌else◌, [], ◌∷◌, refl, arith,
}
use revpi_modbus.Prelude.Int.{ℤ, is_zero}
use revpi_modbus.External.{
  modbus_get_header_length, modbus_receive, event, modbus_reply, pi_write, pi_read, IsDocumented,
  Reply, Call, Event, History, Env, followed_by, modbus_mapping_new, modbus_mapping_free,
  modbus_new, modbus_free,
}

-- One for each mapping, and each context, that a call allocated or released.
abbrev pub mapping_made : Event → ℕ
mapping_made e = elim e.call [
  | modbus_mapping_new a b c d ↦ if is_zero e.reply.ret then 0 else 1
  | _ ↦ 0
]

abbrev pub mapping_freed : Event → ℕ
mapping_freed e = elim e.call [ modbus_mapping_free ↦ 1 | _ ↦ 0 ]

abbrev pub context_made : Event → ℕ
context_made e = elim e.call [ modbus_new ↦ if is_zero e.reply.ret then 0 else 1 | _ ↦ 0 ]

abbrev pub context_freed : Event → ℕ
context_freed e = elim e.call [ modbus_free ↦ 1 | _ ↦ 0 ]

abbrev pub total : (Event → ℕ) → History → ℕ
total f [] = 0
total f (e ∷ h) = f e + total f h

-- From one history to a later one, `m` mappings and `c` contexts more are made than released.
pub record Owes (m c : ℕ) (h h' : History) : Type 0 where
  pub mappings :
      total mapping_made h' + total mapping_freed h
      ≡ total mapping_made h + total mapping_freed h' + m
  pub contexts :
      total context_made h' + total context_freed h
      ≡ total context_made h + total context_freed h' + c

-- Between two histories nothing is made or released.
pub record Same (h h' : History) : Type 0 where
  pub made₁ : total mapping_made h' ≡ total mapping_made h
  pub freed₁ : total mapping_freed h' ≡ total mapping_freed h
  pub made₂ : total context_made h' ≡ total context_made h
  pub freed₂ : total context_freed h' ≡ total context_freed h

pub Same-refl : (h : History) → Same h h
Same-refl h = record { made₁ = refl; freed₁ = refl; made₂ = refl; freed₂ = refl }

pub Same-trans : (h₁ h₂ h₃ : History) → Same h₁ h₂ → Same h₂ h₃ → Same h₁ h₃
Same-trans h₁ h₂ h₃ s t = record {
  made₁ = omega (arith, s.made₁, t.made₁);
  freed₁ = omega (arith, s.freed₁, t.freed₁);
  made₂ = omega (arith, s.made₂, t.made₂);
  freed₂ = omega (arith, s.freed₂, t.freed₂);
}

-- A call that makes and releases nothing, by the event that it leaves.
abbrev pub IsQuiet : Event → Type 0
IsQuiet e =
    (mapping_made e ≡ 0) × (mapping_freed e ≡ 0) × (context_made e ≡ 0) × (context_freed e ≡ 0)

pub Same-event : (h h' : History) (e : Event) → IsQuiet e → Same h h' → Same h (e ∷ h')
Same-event h h' e q s = record {
  made₁ = omega (arith, q.0, s.made₁);
  freed₁ = omega (arith, q.1, s.freed₁);
  made₂ = omega (arith, q.2, s.made₂);
  freed₂ = omega (arith, q.3, s.freed₂);
}

pub Owes-Same : (m c : ℕ) (h₀ h h' : History) → Owes m c h₀ h → Same h h' → Owes m c h₀ h'
Owes-Same m c h₀ h h' o s = record {
  mappings = omega (arith, o.mappings, s.made₁, s.freed₁);
  contexts = omega (arith, o.contexts, s.made₂, s.freed₂);
}

pub Same-call :
    (env : Env) (k : Call) (h : History) → IsQuiet (event env k h) → Same h (followed_by env k h)
Same-call env k h q = Same-event h h (event env k h) q (Same-refl h)

pub Same-Extends :
    (P : Call → Type 0) (h h' : History)
    → ((k : Call) (r : Reply) → P k → IsQuiet (record { call = k; reply = r }))
    → Extends P h h'
    → Same h h'
Same-Extends P h h' quiet start = Same-refl h
Same-Extends P h h' quiet (after {h' = h₁} e p rest) =
    Same-event h h₁ e (quiet e.call e.reply p) (Same-Extends P h h₁ quiet rest)

-- The accesses of a slave to the process image.
pub FillsInputs-IsQuiet :
    (m : Mapping) (c : ProcessImageConfiguration) (k : Call) (r : Reply)
    → FillsInputs m c k
    → IsQuiet (record { call = k; reply = r })
FillsInputs-IsQuiet m c (pi_read offset len) r p = (refl, refl, refl, refl)
FillsInputs-IsQuiet m c _ r p = absurd p

pub PublishesOutputs-IsQuiet :
    (m : Mapping) (c : ProcessImageConfiguration) (k : Call) (r : Reply)
    → PublishesOutputs m c k
    → IsQuiet (record { call = k; reply = r })
PublishesOutputs-IsQuiet m c (pi_write offset len bytes) r p = (refl, refl, refl, refl)
PublishesOutputs-IsQuiet m c _ r p = absurd p

module _ (env : Env) (doc : IsDocumented env) (c : ProcessImageConfiguration) (serve : Serve)
    (keeps : KeepsSize serve) where
  Answered-Same :
      (m : Mapping) (fc : ℕ) (len : ℤ) (req : List ℕ) (h h' : History) (r : ℤ × Mapping)
      → Answered env serve c m fc len req h r h'
      → Same h h'
  Answered-Same m fc len req h h' r a =
      let replied = followed_by env (modbus_reply len req) a.before_reply in
      Same-trans h replied h'
        (Same-event h a.before_reply (event env (modbus_reply len req) a.before_reply)
          (refl, refl, refl, refl)
          (Same-Extends (FillsInputs m c) h a.before_reply (FillsInputs-IsQuiet m c) a.fills))
        (Same-Extends (PublishesOutputs r.1 c) replied h' (PublishesOutputs-IsQuiet r.1 c)
          a.publishes)

  -- A request makes and releases nothing, and keeps the size of the mapping.
  pub Processed-Same :
      (buf : List ℕ) (m : Mapping) (h h' : History) (r : ℤ × Mapping)
      → MappingIsSized m
      → Processed env doc c serve keeps buf m h r h'
      → MappingIsSized r.1 × Same h h'
  Processed-Same buf m h h' r sized (inl (silent, e, same)) = (
    subst (λ x. MappingIsSized x.1) (sym e) sized,
    subst (Same h) (sym same)
        (Same-event h h (event env modbus_receive h) (refl, refl, refl, refl) (Same-refl h)),
  )
  Processed-Same buf m h h' r sized (inr (heard, (n, is_n, a))) =
      let h₁ = followed_by env modbus_receive h in
      let h₂ = followed_by env modbus_get_header_length h₁ in
      (
        a.sized,
        Same-trans h h₂ h'
            (Same-event h h₁ (event env modbus_get_header_length h₁) (refl, refl, refl, refl)
              (Same-event h h (event env modbus_receive h) (refl, refl, refl, refl) (Same-refl h)))
            (Answered-Same m _ _ _ h₂ h' r a),
      )
