-- ===== src/Device/Variables.antt =====
-- A section's variables as a list: the least offset, and the highest variable.
use revpi_modbus.Device.{Extent}
use revpi_modbus.Prelude.{
  leb→le, All-map, All-append, ◌++◌, ap, sym, subst, refl, ℕ, ◌^◌, ◌-◌, ◌≤◌, ◌<◌, ◌≡◌, Option, none,
  some, List, [], ◌∷◌, All, leb, ltb, Bool-cases, Option-cases, inl, inr, if◌then◌else◌, arith,
}

-- A variable of a section: its offset, and the value for its size.
pub record Variable (Json : Type 0) : Type 0 where
  pub offset : ℕ
  pub size : Option Json

module _ {Json : Type 0} where
  -- The least offset.
  unfoldable pub least : List (Variable Json) → ℕ
  least [] = 2 ^ 32 - 1
  least (v ∷ vs) = if leb (least vs) v.offset then least vs else v.offset

  -- The first of the variables with the greatest offset, unless that is 0.
  unfoldable pub highest : List (Variable Json) → Option (Variable Json)
  highest [] = none
  highest (v ∷ vs) = elim (highest vs) [
    | none ↦ if ltb 0 v.offset then some v else none
    | some w ↦ if leb w.offset v.offset then some v else some w
  ]

  unfoldable pub extent_of : List (Variable Json) → Extent Json
  extent_of vs = elim (highest vs) [
    | none ↦ record { start_address = least vs; size = 0; highest_size = none }
    | some v ↦ record { start_address = least vs; size = v.offset; highest_size = v.size }
  ]

  -- Each offset is at least the least, and a variable with an offset at most 2 ^ 32 - 1 has it.
  pub least-le : (vs : List (Variable Json)) → All (λ v. least vs ≤ v.offset) vs
  unfolding least
  least-le [] = tt
  least-le (v ∷ vs) = (
    ground arith,
    All-map (λ w. least vs ≤ w.offset) (λ w. least (v ∷ vs) ≤ w.offset) vs (λ w le. ground arith)
        (least-le vs),
  )

  pub least-fits : (vs : List (Variable Json)) → least vs < 2 ^ 32
  unfolding least
  least-fits [] = omega arith
  least-fits (v ∷ vs) = ground (arith, least-fits vs)

  -- The variable that the length is taken from: the first with the greatest offset.
  pub record IsHighest (v : Variable Json) (vs : List (Variable Json)) : Type 0 where
    pub positive : 0 < v.offset
    pub before : List (Variable Json)
    pub behind : List (Variable Json)
    pub place : vs ≡ before ++ (v ∷ behind)
    pub lower : All (λ w. w.offset < v.offset) before
    pub top : All (λ w. w.offset ≤ v.offset) behind

  highest-none : (vs : List (Variable Json)) → highest vs ≡ none → All (λ v. v.offset ≡ 0) vs
  unfolding highest
  highest-none [] e = tt
  highest-none (v ∷ vs) e = elim (Option-cases (highest vs)) [
    | inl nothing ↦ (ground arith, highest-none vs nothing)
    | inr (w, top) ↦ absurd (ground arith)
  ]

  -- No variable of the list is higher.
  highest-top :
      (vs : List (Variable Json)) (v : Variable Json)
      → IsHighest v vs
      → All (λ w. w.offset ≤ v.offset) vs
  highest-top vs v t = subst (All λ (w : Variable Json). w.offset ≤ v.offset) (sym t.place) (
      All-append (λ (w : Variable Json). w.offset ≤ v.offset) t.before (v ∷ t.behind)
        (All-map (λ w. w.offset < v.offset) (λ w. w.offset ≤ v.offset) t.before
          (λ w lt. omega (arith, lt)) t.lower)
        (omega arith, t.top))

  -- Which variable is the highest of a list, by that of the rest.
  pub highest-IsHighest :
      (vs : List (Variable Json)) (v : Variable Json) → highest vs ≡ some v → IsHighest v vs
  unfolding highest
  highest-IsHighest [] v e = absurd (ground arith)
  highest-IsHighest (u ∷ us) v e = elim (Option-cases (highest us)) [
    | inl nothing ↦
        let same : u ≡ v = ground arith in
        subst (λ x. IsHighest x (u ∷ us)) same
          (record {
            positive = ground arith;
            before = [];
            behind = us;
            place = refl;
            lower = tt;
            top =
                All-map (λ w. w.offset ≡ 0) (λ w. w.offset ≤ u.offset) us (λ w z. omega (arith, z))
                  (highest-none us nothing);
          })
    | inr (w, top) ↦
        let below = highest-IsHighest us w top in
        elim (Bool-cases (leb w.offset u.offset)) [
          | inl first ↦
              let same : u ≡ v = ground arith in
              subst (λ x. IsHighest x (u ∷ us)) same
                (record {
                  positive = omega (arith, below.positive, leb→le _ _ first);
                  before = [];
                  behind = us;
                  place = refl;
                  lower = tt;
                  top =
                      All-map (λ x. x.offset ≤ w.offset) (λ x. x.offset ≤ u.offset) us
                        (λ x le. omega (arith, le, leb→le _ _ first)) (highest-top us w below);
                })
          | inr later ↦
              let same : w ≡ v = ground arith in
              subst (λ x. IsHighest x (u ∷ us)) same
                (record {
                  positive = below.positive;
                  before = u ∷ below.before;
                  behind = below.behind;
                  place = ap (λ rest. u ∷ rest) below.place;
                  lower = (ground arith, below.lower);
                  top = below.top;
                })
        ]
  ]

  pub extent_of-none :
      (vs : List (Variable Json))
      → highest vs ≡ none
      → extent_of vs ≡ record { start_address = least vs; size = 0; highest_size = none }
  unfolding extent_of
  extent_of-none vs e = rw (extent_of, e) refl

  pub extent_of-some :
      (vs : List (Variable Json)) (v : Variable Json)
      → highest vs ≡ some v
      → extent_of vs ≡ record { start_address = least vs; size = v.offset; highest_size = v.size }
  unfolding extent_of
  extent_of-some vs v e = rw (extent_of, e) refl
