-- ===== src/Parser/Allows.antt =====
-- What holds of every value that a program ends with.
use revpi_modbus.Prelude.{false, true, Bool}
use revpi_modbus.External.{branch, pure, M, Outcome, done, aborted, overrun, History, ◌>>=◌}
use revpi_modbus.Parser.{ParsingError, Parsed, value, skip, fail, ◌>=>◌}

-- What holds of every value that a program ends with. It may fail an assertion.
abbrev pub Allows : {A : Type 0} → (A → Type 0) → Outcome A → Type 0
Allows P (done a h) = P a
Allows P (aborted h) = Unit
Allows P (overrun h) = Unit

pub Allows-bind :
    {A B : Type 0} (P : A → Type 0) (Q : B → Type 0) (m : M A) (f : A → M B) (h : History)
    → Allows P (m h)
    → ((a : A) (h' : History) → P a → Allows Q (f a h'))
    → Allows Q ((m >>= f) h)
Allows-bind P Q m f h r k = go (m h) r
  where
    go :
        (o : Outcome _)
        → Allows P o
        → Allows Q
            (elim o [ done a h' ↦ f a h' | aborted h' ↦ aborted h' | overrun h' ↦ overrun h' ])
    go (done a h') p = k a h' p
    go (aborted h') p = tt
    go (overrun h') p = tt

pub Allows-any : {A : Type 0} (o : Outcome A) → Allows (λ _. Unit) o
Allows-any (done a h) = tt
Allows-any (aborted h) = tt
Allows-any (overrun h) = tt

pub Allows-branch :
    {A : Type 0} (P : A → Type 0) (b : Bool) (m k : M A) (h : History)
    → Allows P (m h)
    → Allows P (k h)
    → Allows P (branch b m k h)
Allows-branch P true m k h r s = r
Allows-branch P false m k h r s = s

-- What holds of a part of an action where it was read.
abbrev pub WhereRead : {A : Type 0} → (A → Type 0) → Parsed A → Type 0
WhereRead P (value a) = P a
WhereRead P skip = Unit
WhereRead P (fail e) = Unit

pub Allows-then :
    {A B : Type 0} (P : A → Type 0) (Q : B → Type 0) (m : M (Parsed A)) (f : A → M (Parsed B))
    (h : History)
    → Allows (WhereRead P) (m h)
    → ((a : A) (h' : History) → P a → Allows (WhereRead Q) (f a h'))
    → Allows (WhereRead Q) ((m >=> f) h)
Allows-then {A} {B} P Q m f h r k = Allows-bind (WhereRead P) (WhereRead Q) m next h r go
  where
    next : Parsed A → M (Parsed B)
    next p = elim p [ value a ↦ f a | skip ↦ pure skip | fail e ↦ pure (fail e) ]

    go : (p : Parsed A) (h' : History) → WhereRead P p → Allows (WhereRead Q) (next p h')
    go (value a) h' p = k a h' p
    go skip h' p = tt
    go (fail e) h' p = tt

-- The three ways on from a part.
pub Allows-parsed :
    {A B : Type 0} (P : A → Type 0) (Q : B → Type 0) (f : A → M B) (s : M B)
    (e : ParsingError → M B)
    → ((a : A) (h : History) → P a → Allows Q (f a h))
    → ((h : History) → Allows Q (s h))
    → ((x : ParsingError) (h : History) → Allows Q (e x h))
    → (p : Parsed A) (h : History) → WhereRead P p
    → Allows Q ((elim p as (λ p'. M B) [ value a ↦ f a | skip ↦ s | fail x ↦ e x ]) h)
Allows-parsed P Q f s e on_value on_skip on_fail (value a) h r = on_value a h r
Allows-parsed P Q f s e on_value on_skip on_fail skip h r = on_skip h
Allows-parsed P Q f s e on_value on_skip on_fail (fail x) h r = on_fail x h
