-- ===== src/External/Reasoning.antt =====
-- Total correctness of programs over a history: `Returns P o` says that the program ended with a
-- value and a history that satisfy `P`, so with no failed assertion and no overrun.
use revpi_modbus.Prelude.{
  refl, if◌then◌else◌, if◌then◌else◌, false, true, Bool, take, get_elem?-eq-get_or, get_or, ℕ, ◌≤◌,
  ◌<◌, ◌≡◌, List, ◌++◌, length, drop, length-append, length-drop, set, arith,
}
use revpi_modbus.External.{
  branch, payload, Outcome, done, aborted, overrun, History, M, ◌>>=◌, load, store, fill,
}

abbrev pub Returns : {A : Type 0} → (A → History → Type 0) → Outcome A → Type 0
Returns P (done a h) = P a h
Returns P (aborted h) = ⊥
Returns P (overrun h) = ⊥

pub Returns-bind :
    {A B : Type 0} (P : A → History → Type 0) (Q : B → History → Type 0) (m : M A) (f : A → M B)
    (h : History)
    → Returns P (m h)
    → ((a : A) (h' : History) → P a h' → Returns Q (f a h'))
    → Returns Q ((m >>= f) h)
Returns-bind P Q m f h r k = go (m h) r
  where
    go :
        (o : Outcome _)
        → Returns P o
        → Returns Q
            (elim o [ done a h' ↦ f a h' | aborted h' ↦ aborted h' | overrun h' ↦ overrun h' ])
    go (done a h') p = k a h' p
    go (aborted h') p = absurd p
    go (overrun h') p = absurd p

pub Returns-mono :
    {A : Type 0} (P Q : A → History → Type 0) (o : Outcome A)
    → Returns P o
    → ((a : A) (h' : History) → P a h' → Q a h')
    → Returns Q o
Returns-mono P Q (done a h) r k = k a h r
Returns-mono P Q (aborted h) r k = absurd r
Returns-mono P Q (overrun h) r k = absurd r

-- Inside its buffer a read, a write or a call's store succeeds, and keeps the buffer's length.
pub load-eq :
    (buf : List ℕ) (i : ℕ) (h : History) → i < length buf → load buf i h ≡ done (get_or buf i 0) h
load-eq buf i h lt = rw (get_elem?-eq-get_or buf i 0 lt, load)

pub length-fill :
    (buf out : List ℕ)
    → length out ≤ length buf
    → length (out ++ drop (length out) buf) ≡ length buf
length-fill buf out le =
    omega (arith, length-append out (drop (length out) buf), length-drop (length out) buf)

pub fill-eq :
    (buf out : List ℕ) (h : History)
    → length out ≤ length buf
    → fill buf out h ≡ done (out ++ drop (length out) buf) h
fill-eq buf out h le = ground arith

pub store-eq :
    (buf : List ℕ) (i v : ℕ) (h : History) → i < length buf → store buf i v h ≡ done (set buf i v) h
store-eq buf i v h lt = ground arith

pub payload-eq :
    (buf : List ℕ) (n : ℕ) (h : History) → n ≤ length buf → payload buf n h ≡ done (take n buf) h
payload-eq buf n h le = ground arith

pub Returns-if :
    {A : Type 0} (P : A → History → Type 0) (b : Bool) (x y : Outcome A)
    → (b ≡ true → Returns P x)
    → (b ≡ false → Returns P y)
    → Returns P (if b then x else y)
Returns-if P true x y f g = f refl
Returns-if P false x y f g = g refl

pub Returns-branch :
    {A : Type 0} (P : A → History → Type 0) (b : Bool) (m k : M A) (h : History)
    → (b ≡ true → Returns P (m h))
    → (b ≡ false → Returns P (k h))
    → Returns P (branch b m k h)
Returns-branch P true m k h f g = f refl
Returns-branch P false m k h f g = g refl

pub Returns-both :
    {A : Type 0} (P Q : A → History → Type 0) (o : Outcome A)
    → Returns P o
    → Returns Q o
    → Returns (λ a h. P a h × Q a h) o
Returns-both P Q (done a h) p q = (p, q)
Returns-both P Q (aborted h) p q = absurd p
Returns-both P Q (overrun h) p q = absurd p
