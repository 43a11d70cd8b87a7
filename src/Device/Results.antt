-- ===== src/Device/Results.antt =====
-- The result of a function of src/piConfigParser/piConfigParser.c: 0 with what it stores, or an error
-- code.
use revpi_modbus.Prelude.{arith, if◌then◌else◌, Bool, true, false, Option, none, some, ◌≡◌, refl}
use revpi_modbus.Parser.{ParsingError}

pub data Result (A : Type 0) : Type 0 where
  ok : A → Result A
  error : ParsingError → Result A

abbrev pub map_ok : {A B : Type 0} → (A → B) → Result A → Result B
map_ok f (ok a) = ok (f a)
map_ok f (error e) = error e

-- `if (!b) return e`.
abbrev pub require : Bool → ParsingError → Result (Unit {0})
require true e = ok tt
require false e = error e

-- `if (p == NULL) return e`.
abbrev pub found : {A : Type 0} → ParsingError → Option A → Result A
found e none = error e
found e (some a) = ok a

-- A call after a call, unless that returned an error.
module _ {A B : Type 0} where
  infixl 5 ◌>>=◌ ◌>>◌
  abbrev pub ◌>>=◌ : Result A → (A → Result B) → Result B
  m >>= next = elim m [ error e ↦ error e | ok a ↦ next a ]

  abbrev pub ◌>>◌ : Result A → Result B → Result B
  m >> next = m >>= λ a. next

-- What holds of what is stored where there is no error.
abbrev pub WhereOk : {A : Type 0} → (A → Type 0) → Result A → Type 0
WhereOk P (ok a) = P a
WhereOk P (error e) = Unit

pub WhereOk-bind :
    {A B : Type 0} (P : A → Type 0) (Q : B → Type 0) (m : Result A) (f : A → Result B)
    → WhereOk P m
    → ((a : A) → P a → WhereOk Q (f a))
    → WhereOk Q (m >>= f)
WhereOk-bind P Q (ok a) f p k = k a p
WhereOk-bind P Q (error e) f p k = tt

pub WhereOk-require :
    {B : Type 0} (Q : B → Type 0) (b : Bool) (e : ParsingError) (k : Result B)
    → (b ≡ true → WhereOk Q k)
    → WhereOk Q (require b e >> k)
WhereOk-require Q true e k f = f refl
WhereOk-require Q false e k f = tt

pub WhereOk-found :
    {A B : Type 0} (Q : B → Type 0) (o : Option A) (e : ParsingError) (f : A → Result B)
    → ((a : A) → WhereOk Q (f a))
    → WhereOk Q (found e o >>= f)
WhereOk-found Q none e f k = tt
WhereOk-found Q (some a) e f k = k a

pub WhereOk-if :
    {A : Type 0} (P : A → Type 0) (b : Bool) (x y : Result A)
    → WhereOk P x
    → WhereOk P y
    → WhereOk P (if b then x else y)
WhereOk-if P true x y f g = f
WhereOk-if P false x y f g = g

pub WhereOk-any : {A : Type 0} (m : Result A) → WhereOk (λ _. Unit) m
WhereOk-any (ok a) = tt
WhereOk-any (error e) = tt

pub WhereOk-map_ok :
    {A B : Type 0} (P : A → Type 0) (Q : B → Type 0) (f : A → B) (m : Result A)
    → WhereOk P m
    → ((a : A) → P a → Q (f a))
    → WhereOk Q (map_ok f m)
WhereOk-map_ok P Q f (ok a) p k = k a p
WhereOk-map_ok P Q f (error e) p k = tt

-- Where both calls are successful: what the first stored.
pub bind-eq-ok :
    {A B : Type 0} {b : B} (next : A → Result B) (m : Result A)
    → ok b ≡ (m >>= next)
    → (a : A) × (ok b ≡ next a) × (m ≡ ok a)
bind-eq-ok next (error e) h = absurd (ground arith)
bind-eq-ok next (ok a) h = (a, h, refl)

pub found-eq-ok :
    {A : Type 0} (e : ParsingError) (o : Option A) {a : A} → found e o ≡ ok a → o ≡ some a
found-eq-ok e none h = cc
found-eq-ok e (some b) h = cc

pub ok-inj : {A : Type 0} {a b : A} → ok a ≡ ok b → a ≡ b
ok-inj h = cc
