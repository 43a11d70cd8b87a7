-- ===== src/Device/Reading.antt =====
-- What `read_config_file` returns, and what it opens, closes, allocates and frees.
use revpi_modbus.Prelude.{
  ℕ, ◌+◌, ◌≤◌, ◌<◌, ◌≡◌, ◌⊎◌, if◌then◌else◌, Option, none, some, List, [], ◌∷◌, ◌++◌, length,
}
use revpi_modbus.Prelude.Int.{pos, is_zero}
use revpi_modbus.External.{
  Env, Event, History, followed_by, call, open_file, seek_start, tell, alloc_buffer, free_buffer,
  read_file, close_file,
}
use revpi_modbus.Slave.Resources.{total}
use revpi_modbus.Device.File.{text_before_0}

-- One for each call that opens or closes a file, and that makes or frees the buffer.
abbrev pub file_opened : Event → ℕ
file_opened e = elim e.call [ open_file path ↦ if is_zero e.reply.ret then 0 else 1 | _ ↦ 0 ]

abbrev pub file_closed : Event → ℕ
file_closed e = elim e.call [ close_file ↦ 1 | _ ↦ 0 ]

abbrev pub buffer_made : Event → ℕ
buffer_made e = elim e.call [ alloc_buffer size ↦ if is_zero e.reply.ret then 0 else 1 | _ ↦ 0 ]

abbrev pub buffer_freed : Event → ℕ
buffer_freed e = elim e.call [ free_buffer ↦ 1 | _ ↦ 0 ]

-- From one history to a later one, `f` files more are opened than closed, and `b` buffers more are
-- made than freed.
pub record Holding (f b : ℕ) (h h' : History) : Type 0 where
  pub files :
      total file_opened h' + total file_closed h ≡ total file_opened h + total file_closed h' + f
  pub buffers :
      total buffer_made h' + total buffer_freed h ≡ total buffer_made h + total buffer_freed h' + b

-- `fread` stores as many bytes as it returns, and no more than it is asked for.
abbrev pub ReadsWithin : Env → Type 0
ReadsWithin env =
    (h : History) (n : ℕ)
    → ((env.answer h (read_file n)).ret ≡ pos (length (env.answer h (read_file n)).out))
      × (length (env.answer h (read_file n)).out ≤ n)

-- The history when `n` bytes and one more are allocated, after `h` in which the size was asked for,
-- and the history when the file is then read from its start.
abbrev allocated : Env → ℕ → History → History
allocated env n h = followed_by env (alloc_buffer (n + 1)) (followed_by env tell h)

abbrev pub rewound : Env → ℕ → History → History
rewound env n h = followed_by env seek_start (allocated env n h)

-- The bytes that one `fread` from the file's start stored, as many as `ftell` said that there are,
-- with which the file was read to its end and closed.
pub record IsFile (env : Env) (content : List ℕ) (h' : History) : Type 0 where
  pub sized : History
  pub count : ℕ
  pub positive : 0 < count
  pub told : (env.answer sized tell).ret ≡ pos count
  pub bytes : content ≡ (env.answer (rewound env count sized) (read_file count)).out
  pub whole : length content ≡ count
  pub closed :
      h' ≡ followed_by env close_file (followed_by env (read_file count) (rewound env count sized))

-- What is returned: NULL, with nothing held, or the buffer with the file's bytes and a final 0.
abbrev pub Read : Env → History → Option (List ℕ) → History → Type 0
Read env h r h' =
    ((r ≡ none) × Holding 0 0 h h')
    ⊎ ((content : List ℕ) × (r ≡ some (content ++ (0 ∷ [])))
        × IsFile env content h'
        × ((text : List ℕ) × (text_before_0 (content ++ (0 ∷ [])) ≡ some text))
        × Holding 0 1 h h')
