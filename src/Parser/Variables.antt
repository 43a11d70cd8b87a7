-- ===== src/Parser/Variables.antt =====
-- The look-ups of src/piConfigParser/piConfigParser.c: names in the PiCtory configuration, and the
-- positions of variables in the process image.
use revpi_modbus.Parser.Names.{Text, offset_key, inp_key, out_key}
use revpi_modbus.Prelude.{
  ◌++◌, if◌then◌else◌, ℕ, ◌+◌, ◌%◌, ◌^◌, ◌==◌, ◌&&◌, ◌||◌, Bool, true, false, Option, none, some,
  List, [], ◌∷◌, get_elem?,
}
use revpi_modbus.Prelude.Int.{ℤ, pos, negsuc}
use revpi_modbus.External.{M, ◌>>=◌, pure, overrun, branch}

-- What the file calls: json-c, the conversions of the C library, where `none` stands for a set
-- errno, the search for the part of a name between its first two underscores, with these, and
-- `calloc`, by the name that it makes an action for.
pub record Libraries : Type 1 where
  pub Json : Type 0
  pub object_get : Json → Text → Option Json
  pub entries : Json → List (Text × Json)
  pub get_string : Json → Text
  pub get_array : Json → Option (List Json)
  pub get_int : Json → Option ℤ
  pub strtoul : Text → Option ℕ
  pub strtoumax : Text → Option ℕ
  pub find_identifier : Text → Option Text
  pub allocates : Text → Bool

-- `memcmp` of a name with the whole of a shorter one.
unfoldable pub starts_with : (name key : Text) → Bool
starts_with [] key = true
starts_with (c ∷ name) [] = false
starts_with (c ∷ name) (d ∷ key) = c == d && starts_with name key

unfoldable pub same_text : Text → Text → Bool
same_text [] [] = true
same_text [] (d ∷ key) = false
same_text (c ∷ name) [] = false
same_text (c ∷ name) (d ∷ key) = c == d && same_text name key

-- The position of a variable: bytes and bits.
pub record Position : Type 0 where
  pub byte : ℕ
  pub bit : ℕ

module _ (lib : Libraries) where
  open lib use {
    Json, object_get, entries, get_string, get_array, get_int, strtoul, strtoumax, find_identifier,
    allocates,
  }

  -- A string of an array's element, which must not be NULL.
  unfoldable pub element_string : List Json → ℕ → M Text
  element_string elements i h = elim (get_elem? elements i) [
    | none ↦ overrun h
    | some j ↦ pure (get_string j) h
  ]

  -- The two numbers of a variable that was found; `true` stands for the result 0. The byte is
  -- stored before the bit is read.
  unfoldable pub stored_byte : List Json → ℕ → Position → M (Bool × Position)
  stored_byte elements n p = element_string elements 7 >>= λ bit. pure (elim (strtoumax bit) [
    | none ↦ (false, record p { byte = n % 2 ^ 32 })
    | some k ↦ (true, record { byte = n % 2 ^ 32; bit = k % 2 ^ 32 })
  ])

  unfoldable pub stored_position : List Json → Position → M (Bool × Position)
  stored_position elements p = element_string elements 3 >>= λ byte. elim (strtoumax byte) [
    | none ↦ pure (false, p)
    | some n ↦ stored_byte elements n p
  ]

  -- The first variable of a section with the name.
  unfoldable pub get_variable_relative_offsets :
      List (Text × Json) → Text → Position → M (Bool × Position)
  get_variable_relative_offsets [] name p = pure (false, p)
  get_variable_relative_offsets ((key, val) ∷ rest) name p = elim (get_array val) [
    | none ↦ get_variable_relative_offsets rest name p
    | some elements ↦ element_string elements 0 >>= λ variable_name.
        branch (same_text variable_name name) (stored_position elements p)
          (get_variable_relative_offsets rest name p)
  ]

  -- The offset of the device; `none` where the result is negative.
  unfoldable pub get_process_image_device_offset : Json → Option ℕ
  get_process_image_device_offset device = elim (object_get device offset_key) [
    | none ↦ none
    | some j ↦ elim (get_int j) [ none ↦ none | some n ↦ nonnegative n ]
  ]
    where
      nonnegative : ℤ → Option ℕ
      nonnegative (pos n) = some n
      nonnegative (negsuc n) = none

  -- The look-up among the outputs, after that among the inputs with its result.
  unfoldable pub look_up_output : Json → ℕ → Text → Bool × Position → M (Bool × Position)
  look_up_output out device name r₁ =
      get_variable_relative_offsets (entries out) name r₁.1 >>= λ r₂. pure (
        if r₁.0 || r₂.0
        then (true, record { byte = (r₂.1.byte + device) % 2 ^ 32; bit = r₂.1.bit })
        else r₂)

  -- A variable is looked up among the inputs, then among the outputs.
  unfoldable pub get_variable_parameters : Json → Text → Position → M (Bool × Position)
  get_variable_parameters device name p = elim (get_process_image_device_offset device) [
    | none ↦ pure (false, p)
    | some offset ↦ elim (object_get device inp_key) [
      | none ↦ pure (false, p)
      | some inp ↦ get_variable_relative_offsets (entries inp) name p >>= λ r.
          elim (object_get device out_key) [
            | none ↦ pure (false, r.1)
            | some out ↦ look_up_output out offset name r
          ]
    ]
  ]

  -- The string of the first entry whose name begins with the key and the identifier.
  unfoldable pub first_match : List (Text × Json) → Text → Option Text
  first_match [] key = none
  first_match ((name, val) ∷ rest) key =
      if starts_with key name then some (get_string val) else first_match rest key

  unfoldable pub get_modbus_action_matching_name_string_value :
      Json → Text → Option Text → Option Text
  get_modbus_action_matching_name_string_value actions key none = none
  get_modbus_action_matching_name_string_value actions key (some identifier) =
      first_match (entries actions) (key ++ identifier)
