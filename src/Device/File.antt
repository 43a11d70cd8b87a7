-- ===== src/Device/File.antt =====
-- `read_config_file` of src/piConfigParser/piConfigParser.c.
use revpi_modbus.Prelude.{
  [], ◌==◌, if◌then◌else◌, ◌∷◌, ℕ, ◌+◌, ltb, not, Option, none, some, List, replicate, Bool,
}
use revpi_modbus.Prelude.Int.{pos_part, is_zero, is_nonpos}
use revpi_modbus.External.{
  overrun, Env, M, ◌>>=◌, ◌>>◌, pure, call, branch, assert, fill, store, open_file, seek_end,
  seek_start, tell, alloc_buffer, free_buffer, read_file, close_file,
}

-- The characters before the first 0; `none` where there is none.
unfoldable pub text_before_0 : List ℕ → Option (List ℕ)
text_before_0 [] = none
text_before_0 (c ∷ rest) =
    let later = text_before_0 rest in
    if c == 0 then some [] else elim later [ none ↦ none | some t ↦ some (c ∷ t) ]

-- A string that is read to its final 0.
unfoldable pub c_string : List ℕ → M (List ℕ)
c_string buf h = elim (text_before_0 buf) [ none ↦ overrun h | some t ↦ pure t h ]

module _ (env : Env) where
  -- `PICONFIG_FILE`, or `PICONFIG_FILE_WHEEZY` where it cannot be opened; whether one was opened.
  unfoldable pub open_config_file : M Bool
  open_config_file = call env (open_file 0) >>= λ r.
      branch (is_zero r.ret) (call env (open_file 1) >>= λ r'. pure (not (is_zero r'.ret)))
        (pure (not (is_zero r.ret)))

  -- The file is closed, and NULL or the buffer returned.
  unfoldable pub close_with : Option (List ℕ) → M (Option (List ℕ))
  close_with result = call env close_file >> pure result

  -- What `fread` stored of the file goes into a buffer for `size` bytes and a 0, which `calloc` has
  -- cleared.
  unfoldable pub keep_received : (size len : ℕ) → List ℕ → M (Option (List ℕ))
  keep_received size len out = fill (replicate (size + 1) 0) out >>= λ buf.
      assert (ltb 0 size)
      >> branch (ltb len size) (call env free_buffer >> close_with none)
          (store buf len 0 >>= λ buf'. close_with (some buf'))

  unfoldable pub read_into_buffer : ℕ → M (Option (List ℕ))
  read_into_buffer size = call env seek_start >>= λ s.
      branch (not (is_zero s.ret)) (call env free_buffer >> close_with none)
        (call env (read_file size) >>= λ r. keep_received size (pos_part r.ret) r.out)

  unfoldable pub read_open_file : M (Option (List ℕ))
  read_open_file = call env seek_end >>= λ e. branch (not (is_zero e.ret)) (close_with none) (
      call env tell >>= λ t. branch (is_nonpos t.ret) (close_with none) (
        call env (alloc_buffer (pos_part t.ret + 1)) >>= λ b.
        branch (is_zero b.ret) (close_with none) (read_into_buffer (pos_part t.ret))))

  unfoldable pub read_config_file : M (Option (List ℕ))
  read_config_file = open_config_file >>= λ there. branch there read_open_file (pure none)

  unfoldable pub free_config_buffer : Option (List ℕ) → M (Unit {0})
  free_config_buffer none = pure tt
  free_config_buffer (some buf) = call env free_buffer >> pure tt
