-- ===== src/Tests/Slave.antt =====
-- Runs and instances for src/ModbusSlaveThread.c and src/piProcessImageAccess.c.
use revpi_modbus.External.{
  Event, modbus_reply, select_fds, accept_fd, modbus_listen, device_access, room, Call, Env,
  IsDocumented, History,
}
use revpi_modbus.Slave.Resources.{total, Owes}
use revpi_modbus.Slave.Threads.{
  run_tcp_slave, serve_rounds, listen_for_masters, waiting, rtu_slave_thread, tcp_slave_thread,
}
use revpi_modbus.Slave.Tcp.{
  serve_round, serve_socket, serve_client, accept_connection, with_fd, without_fd,
  cleanup_tcp_slave_thread, close_sockets, Connections, serve_sockets,
}
use revpi_modbus.Slave.{
  refresh, reply_to, replied, release_slave, Mapping, Serve, process_modbus_request,
  write_modbus_data_to_process_image,
}
use revpi_modbus.Slave.Served.{tcp_slave_thread_lem}
use revpi_modbus.Tests.Samples.{reply_with}
use revpi_modbus.Slave.Released.{rtu_slave_thread_lem, Ended}
use revpi_modbus.Config.{RtuConfig, TcpConfig, SlaveDataSizeConfig, ProcessImageConfiguration}
use revpi_modbus.Prelude.{
  ◌≢◌, ◌∷◌, ◌≤◌, ◌-◌, length, set, length-set, length-replicate, inr, ◌||◌, ℕ, ◌≡◌, refl, List, [],
  replicate, arith, some, ◌==◌,
}
use revpi_modbus.Prelude.Int.{negsuc, ℤ, pos}
use revpi_modbus.External.Reasoning.{Returns}
use revpi_modbus.Slave.Access.{MappingIsSized}
use revpi_modbus.Slave.Request.{Processed, process_modbus_request_lem}
use revpi_modbus.Slave.Image.{write_modbus_data_ignores}
use revpi_modbus.Slave.Tcp.Invariant.{Kept, ConnectionsAreValid, serve_sockets_lem}
use revpi_modbus.Tests.Processor.{delivering, delivering-IsDocumented}

abbrev four_coils : Mapping
four_coils = record {
  nb_bits = 4;
  nb_registers = 2;
  nb_input_bits = 16;
  nb_input_registers = 1;
  tab_bits = replicate 4 1;
  tab_registers = replicate 4 7;
  tab_input_bits = replicate 16 0;
  tab_input_registers = replicate 2 0;
}

four_coils-MappingIsSized : MappingIsSized four_coils
four_coils-MappingIsSized = record {
  bits = omega arith;
  registers = omega arith;
  input_bits = omega arith;
  input_registers = omega arith;
}

abbrev offsets : ProcessImageConfiguration
offsets = record {
  discrete_inputs_offset = 11;
  discrete_inputs_length = 0;
  coils_length = 0;
  input_registers_length = 0;
  holding_registers_length = 0;
  coils_input_offset = 43;
  input_registers_offset = 75;
  holding_registers_input_offset = 107;
}

abbrev unchanged : Serve
unchanged h req m = m

abbrev request_buffer : List ℕ
request_buffer = replicate 260 0

-- The server's socket is 3, a client is connected on 4.
abbrev one_client : Connections
one_client = record { refset = λ fd. fd == 3 || fd == 4; fdmax = 4; mapping = four_coils }

one_client-ConnectionsAreValid : ConnectionsAreValid 3 one_client
one_client-ConnectionsAreValid = record {
  listening = refl;
  bounded = λ fd e. ground arith;
  small = omega arith;
  sized = four_coils-MappingIsSized;
}

process_modbus_request_lem_example :
    Returns
      (Processed
        (delivering 2)
        (delivering-IsDocumented 2)
        offsets
        unchanged
        (λ h req m sized. sized)
        request_buffer
        four_coils
        [])
      (process_modbus_request (delivering 2) unchanged request_buffer four_coils offsets [])
process_modbus_request_lem_example =
    process_modbus_request_lem (delivering 2) (delivering-IsDocumented 2) offsets unchanged
      (λ h req m sized. sized) (λ h. (0, refl, omega arith)) request_buffer four_coils [] refl
      four_coils-MappingIsSized

write_modbus_data_ignores_example :
    write_modbus_data_to_process_image
      (delivering 2)
      (record four_coils { tab_bits = replicate 4 0 })
      offsets
      []
    ≡ write_modbus_data_to_process_image (delivering 2) four_coils offsets []
write_modbus_data_ignores_example =
    write_modbus_data_ignores (delivering 2) offsets four_coils (replicate 4 0) []
      four_coils-MappingIsSized (omega arith) refl

serve_sockets_lem_example :
    Returns
      (λ o h'. (s' : Connections) × (o ≡ some s') × Kept 3 [] s' h')
      (serve_sockets
        (delivering 2)
        unchanged
        offsets
        request_buffer
        3
        1025
        0
        (λ fd. fd == 4)
        one_client
        [])
serve_sockets_lem_example =
    serve_sockets_lem (delivering 2) (delivering-IsDocumented 2) (λ h. (0, refl, omega arith))
      (λ h server. inr (0, refl, omega arith)) unchanged (λ h req m sized. sized) offsets
      request_buffer refl 3 1025 0 (λ fd. fd == 4) one_client [] one_client-ConnectionsAreValid
      (omega arith) (omega arith)

-- A serial device that is there at the second try.
abbrev serial_value : History → Call → ℤ
serial_value h c = elim c [
  | device_access ↦ (elim h [ [] ↦ negsuc 0 | e ∷ rest ↦ pos 0 ])
  | _ ↦ pos 1
]

abbrev serial : Env
serial = record {
  answer = λ h c. reply_with (serial_value h c) (replicate (room c) 1);
  modbus_max_read_bits = 2000;
  modbus_max_write_bits = 1968;
  modbus_max_read_registers = 125;
  modbus_max_write_registers = 123;
  modbus_enobase = 112_345_678;
}

serial-IsDocumented : IsDocumented serial
serial-IsDocumented = record {
  fits = λ h c. omega (arith, length-replicate {A = ℕ} (room c) 1);
  read_limit = omega arith;
  write_limit = omega arith;
}

abbrev serial_line : RtuConfig
serial_line = record {
  baud = 9600;
  parity = 78;
  databits = 8;
  stopbits = 1;
  device_modbus_address = 17;
  device_file_path = 47 ∷ [];
}

abbrev four_coil_sizes : SlaveDataSizeConfig
four_coil_sizes = record {
  discrete_inputs = 16;
  coils = 4;
  input_registers = 1;
  holding_registers = 2;
}

rtu_slave_thread_lem_example :
    Returns
      (Ended serial serial-IsDocumented
        (λ h. (1, refl, omega arith))
        unchanged
        (λ h req m sized. sized)
        (λ s. four_coils)
        (λ s. four_coils-MappingIsSized)
        request_buffer
        refl
        offsets
        [])
      (rtu_slave_thread serial unchanged
        (λ s. four_coils)
        5
        3
        request_buffer
        four_coil_sizes
        offsets
        serial_line
        [])
rtu_slave_thread_lem_example =
    rtu_slave_thread_lem serial serial-IsDocumented (λ h. (1, refl, omega arith)) unchanged
      (λ h req m sized. sized) (λ s. four_coils) (λ s. four_coils-MappingIsSized) request_buffer
      refl offsets 1 5 3 four_coil_sizes serial_line [] (omega arith) refl

-- The server's socket is 3, and a client's 4. In each round there is something on the highest socket:
-- first a client asks for its connection, then it sends requests.
abbrev network_value : Call → ℤ
network_value c = elim c [
  | modbus_listen connections ↦ pos 3
  | accept_fd server ↦ pos 4
  | _ ↦ pos 1
]

abbrev network_out : Call → List ℕ
network_out (select_fds nfds) = set (replicate nfds 0) (nfds - 1) 1
network_out c = replicate (room c) 1

abbrev network : Env
network = record serial { answer = λ h c. reply_with (network_value c) (network_out c) }

network_out-fits : (c : Call) → length (network_out c) ≤ room c
network_out-fits (select_fds nfds) = omega (
  arith,
  length-set (replicate nfds (let z : ℕ = 0 in z)) (nfds - 1) 1,
  length-replicate {A = ℕ} nfds 0,
)
network_out-fits c = omega (arith, length-replicate {A = ℕ} (room c) 1)

network-IsDocumented : IsDocumented network
network-IsDocumented = record {
  fits = λ h c. network_out-fits c;
  read_limit = omega arith;
  write_limit = omega arith;
}

abbrev all_addresses : TcpConfig
all_addresses = record { ip_address = []; port = 502; max_modbus_connections = 4 }

tcp_slave_thread_lem_example :
    Returns
      (λ s h'. (s ≢ waiting) × Owes 0 0 [] h')
      (tcp_slave_thread network unchanged
        (λ s. four_coils)
        5
        3
        request_buffer
        four_coil_sizes
        offsets
        all_addresses
        [])
tcp_slave_thread_lem_example =
    tcp_slave_thread_lem network network-IsDocumented (λ h. (1, refl, omega arith))
      (λ h server. inr (4, refl, omega arith)) (λ h n. inr (3, refl, omega arith)) unchanged
      (λ h req m sized. sized) (λ s. four_coils) (λ s. four_coils-MappingIsSized) request_buffer
      refl offsets 0 5 3 four_coil_sizes all_addresses [] (omega arith) refl

-- Of three rounds the first accepts a client, and the other two answer its requests.
abbrev replies : Event → ℕ
replies e = elim e.call [ modbus_reply len request ↦ 1 | _ ↦ 0 ]

two_replies :
    Returns
      (λ s h'. total replies h' ≡ 2)
      (tcp_slave_thread network unchanged
        (λ s. four_coils)
        1
        3
        request_buffer
        four_coil_sizes
        offsets
        all_addresses
        [])
unfolding tcp_slave_thread run_tcp_slave serve_rounds listen_for_masters serve_round serve_sockets
    serve_socket serve_client accept_connection with_fd without_fd process_modbus_request refresh
    reply_to replied cleanup_tcp_slave_thread close_sockets release_slave
two_replies = refl
