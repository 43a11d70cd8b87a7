-- ===== src/Device/Extents.antt =====
-- The part of the process image that a section's variables lie in, described by the list of the
-- variables, against the one loop that finds it.
use revpi_modbus.Device.Variables.{
  least-le, extent_of-some, extent_of-none, highest-IsHighest, IsHighest, least-fits, extent_of,
  Variable, highest, least,
}
use revpi_modbus.Device.{
  is_string, Span, measure, is_object, get_device_process_image_parameter, get_offset, extend,
  scan_variables, Platform, Extent,
}
use revpi_modbus.Parser.{
  general_exception, offset_position_parameter_wrong_type, process_image_wrong_type,
  process_image_object_empty, Text, Libraries,
}
use revpi_modbus.Prelude.{
  sym, ◌/◌, ◌%◌, ◌+◌, subst, ◌∙◌, ap, refl, ℕ, ◌^◌, ◌-◌, ◌≤◌, ◌<◌, ◌≡◌, none, some, List, [], ◌∷◌,
  All, leb, ltb, Option-cases, inl, inr, if◌then◌else◌, get_elem?, arith,
}
use revpi_modbus.Device.Results.{
  bind-eq-ok, ok-inj, found-eq-ok, Result, ok, error, ◌>>=◌, ◌>>◌, require, found,
}

module _ {Json : Type 0} where
  -- An extent with the variables of a list.
  widen : Extent Json → List (Variable Json) → Extent Json
  widen x vs = elim (highest vs) [
    | none ↦ record x {
      start_address = if leb x.start_address (least vs) then x.start_address else least vs;
    }
    | some v ↦ record {
      start_address = if leb x.start_address (least vs) then x.start_address else least vs;
      size = if ltb x.size v.offset then v.offset else x.size;
      highest_size = if ltb x.size v.offset then v.size else x.highest_size;
    }
  ]

module _ (lib : Libraries) (platform : Platform lib) where
  open lib use {Json, entries, get_array, get_string, strtoumax}
  open platform use {json_type}

  -- The variables of a section, or the first error.
  unfoldable pub read_variables : List (Text × Json) → Result (List (Variable Json))
  read_variables [] = ok []
  read_variables ((key, val) ∷ rest) = do
    elements ← found process_image_object_empty (get_array val)
    offset ← get_offset lib platform elements
    vs ← read_variables rest
    ok (record { offset = offset; size = get_elem? elements 2 } ∷ vs)

  widen-empty : (x : Extent Json) → x.start_address < 2 ^ 32 → x ≡ widen x []
  unfolding widen highest least
  widen-empty x fits = ground arith

  widen-extend :
      (elements : List Json) (o : ℕ) (x : Extent Json) (vs : List (Variable Json))
      → widen (extend lib platform elements o x) vs
        ≡ widen x (record { offset = o; size = get_elem? elements 2 } ∷ vs)
  unfolding widen extend least highest
  widen-extend elements o x vs = elim (Option-cases (highest vs)) [
    | inl nothing ↦ ground arith
    | inr (w, top) ↦ ground arith
  ]

  extend-fits :
      (elements : List Json) (o : ℕ) (x : Extent Json)
      → x.start_address < 2 ^ 32
      → (extend lib platform elements o x).start_address < 2 ^ 32
  unfolding extend
  extend-fits elements o x fits = ground arith

  widen_step :
      (elements : List Json) (o : ℕ) (x : Extent Json) (m : Result (List (Variable Json)))
      → (m >>= λ vs. ok (widen (extend lib platform elements o x) vs)) ≡ (
          m >>= (λ vs. ok (record { offset = o; size = get_elem? elements 2 } ∷ vs)) >>= λ vs.
          ok (widen x vs))
  widen_step elements o x (ok vs) = ap ok (widen-extend elements o x vs)
  widen_step elements o x (error e) = refl

  scan_step :
      (elements : List Json) (rest : List (Text × Json)) (x : Extent Json) (r : Result ℕ)
      → ((o : ℕ)
          → scan_variables lib platform rest (extend lib platform elements o x)
            ≡ (read_variables rest >>= λ vs. ok (widen (extend lib platform elements o x) vs)))
      → (r >>= λ o. scan_variables lib platform rest (extend lib platform elements o x)) ≡ (
          r
          >>= (λ o. read_variables rest >>= λ vs.
              ok (record { offset = o; size = get_elem? elements 2 } ∷ vs))
          >>= λ vs. ok (widen x vs))
  scan_step elements rest x (error e) ih = refl
  scan_step elements rest x (ok o) ih = ih o ∙ widen_step elements o x (read_variables rest)

  scan_variables_lem :
      (es : List (Text × Json)) (x : Extent Json)
      → x.start_address < 2 ^ 32
      → scan_variables lib platform es x ≡ (read_variables es >>= λ vs. ok (widen x vs))
  unfolding scan_variables read_variables
  scan_variables_lem [] x fits = ap ok (widen-empty x fits)
  scan_variables_lem ((key, val) ∷ rest) x fits = elim (Option-cases (get_array val)) [
    | inl e ↦ rw (scan_variables, read_variables, e, ◌>>=◌) refl
    | inr (elements, e) ↦
        rw (scan_variables, read_variables, e, ◌>>=◌)
          (scan_step elements rest x (get_offset lib platform elements) λ o.
            scan_variables_lem rest (extend lib platform elements o x)
              (extend-fits elements o x fits))
  ]

  widen-start :
      (vs : List (Variable Json))
      → widen (record { start_address = 2 ^ 32 - 1; size = 0; highest_size = none }) vs
        ≡ extent_of vs
  unfolding widen extent_of least
  widen-start vs = elim (Option-cases (highest vs)) [
    | inl nothing ↦ ground (arith, least-fits vs)
    | inr (w, top) ↦ ground (arith, least-fits vs, (highest-IsHighest vs w top).positive)
  ]

  widen-measure :
      (m : Result (List (Variable Json)))
      → (m
          >>= (λ vs.
              ok (widen (record { start_address = 2 ^ 32 - 1; size = 0; highest_size = none }) vs))
          >>= λ x. measure lib platform x)
        ≡ (m >>= λ vs. measure lib platform (extent_of vs))
  widen-measure (ok vs) = ap (measure lib platform) (widen-start vs)
  widen-measure (error e) = refl

  -- The one loop over a section, which keeps the least offset and the greatest, finds the same as a
  -- description by the list of the variables: an error where the section is no object or a variable
  -- cannot be read, the first such; else the span from the least offset to the end of the first
  -- variable with the greatest offset, in 32 bits.
  pub get_device_process_image_parameter_lem :
      (section : Json)
      → get_device_process_image_parameter lib platform section ≡ (
          require (is_object (json_type section)) process_image_wrong_type
          >> (read_variables (entries section) >>= λ vs. measure lib platform (extent_of vs)))
  unfolding get_device_process_image_parameter
  get_device_process_image_parameter_lem section =
      ap (λ k. require (is_object (json_type section)) process_image_wrong_type >> k)
        (ap (λ m. m >>= λ x. measure lib platform x)
            (scan_variables_lem (entries section)
              (record { start_address = 2 ^ 32 - 1; size = 0; highest_size = none }) (omega arith))
          ∙ widen-measure (read_variables (entries section)))

  measure-eq-ok :
      (x : Extent Json) (s : Span)
      → measure lib platform x ≡ ok s
      → (j : Json) × (bits : ℕ) × (x.highest_size ≡ some j)
        × (strtoumax (get_string j) ≡ some bits)
        × (s ≡ record {
          offset = x.start_address;
          length = (x.size + bits % 2 ^ 32 / 8 + (2 ^ 32 - x.start_address)) % 2 ^ 32;
        })
  unfolding measure
  measure-eq-ok x s e =
      let (j, e₁, has) =
        bind-eq-ok _ (found offset_position_parameter_wrong_type x.highest_size) (sym e) in
      let (u, e₂, string) =
        bind-eq-ok _ (require (is_string (json_type j)) offset_position_parameter_wrong_type) e₁ in
      let (bits, e₃, read) = bind-eq-ok _ (found general_exception (strtoumax (get_string j))) e₂ in
      (
        j,
        bits,
        found-eq-ok offset_position_parameter_wrong_type x.highest_size has,
        found-eq-ok general_exception (strtoumax (get_string j)) read,
        ok-inj e₃,
      )

  -- What a span says of the variables of its section.
  pub record IsSpan (vs : List (Variable Json)) (s : Span) : Type 0 where
    pub below : All (λ v. s.offset ≤ v.offset) vs
    pub last : Variable Json
    pub last_is_highest : IsHighest last vs
    pub last_size : Json
    pub has_size : last.size ≡ some last_size
    pub bits : ℕ
    pub read : strtoumax (get_string last_size) ≡ some bits
    pub ends : (s.offset + s.length) % 2 ^ 32 ≡ (last.offset + bits % 2 ^ 32 / 8) % 2 ^ 32

  measure-IsSpan :
      (vs : List (Variable Json)) (s : Span)
      → measure lib platform (extent_of vs) ≡ ok s
      → IsSpan vs s
  measure-IsSpan vs s e = elim (Option-cases (highest vs)) [
    | inl nothing ↦
        let (j, bits, has, read, same) =
          measure-eq-ok _ s
            (subst (λ x. measure lib platform x ≡ ok s) (extent_of-none vs nothing) e) in
        absurd (ground arith)
    | inr (v, top) ↦
        let (j, bits, has, read, same) =
          measure-eq-ok _ s
            (subst (λ x. measure lib platform x ≡ ok s) (extent_of-some vs v top) e) in
        subst (IsSpan vs) (sym same) (record {
          below = least-le vs;
          last = v;
          last_is_highest = highest-IsHighest vs v top;
          last_size = j;
          has_size = has;
          bits = bits;
          read = read;
          ends = omega (arith, least-fits vs);
        })
  ]

  -- A span that is found starts at or before every variable of the section, and ends where the
  -- first variable with the greatest offset ends, in 32 bits; that offset is not 0.
  pub get_device_process_image_parameter-IsSpan :
      (section : Json) (s : Span)
      → get_device_process_image_parameter lib platform section ≡ ok s
      → (vs : List (Variable Json)) × (read_variables (entries section) ≡ ok vs) × IsSpan vs s
  get_device_process_image_parameter-IsSpan section s e =
      let e₀ = sym e ∙ get_device_process_image_parameter_lem section in
      let (u, e₁, object) =
        bind-eq-ok _ (require (is_object (json_type section)) process_image_wrong_type) e₀ in
      let (vs, e₂, read) = bind-eq-ok _ (read_variables (entries section)) e₁ in
      (vs, read, measure-IsSpan vs s (sym e₂))
