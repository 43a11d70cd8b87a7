-- ===== src/Lib.antt =====
-- revpi-modbus: the Modbus masters and slaves of a Revolution Pi, which move data between Modbus
-- devices and the process image.
--
-- A master reads its actions from the PiCtory configuration (the parser), makes a queue of events of
-- them (the scheduler), and takes the earliest event over and over; the action processor sends it over
-- the bus and moves its data from or into the process image, through a buffer of 256 bytes. A slave
-- answers the requests of other masters from a mapping of coils and registers, whose inputs it reads
-- from the process image before it answers, and whose outputs it writes there after.
--
-- Modules, with the file of the repository that each models:
--   Config     src/modbusconfig.h: actions, devices, function codes, error codes.
--   Scheduler  src/Scheduler.c: clock arithmetic (Time), the queue (insert_event_by_due_date,
--              init_scheduler, get_next_event and so on, after insertEventByDueDate and the others),
--              with proofs in Clock, Order, Start, Rounds and Intervals. Offset is the
--              pause between events, over the operations of `double`, with its proof in Quarter. Timetable is the abstract
--              view: entries in no order, with times in nanoseconds. A `timespec` is normalised
--              seconds and nanoseconds; the queue is a list; a failed assertion is `none` or `aborted`.
--   External   What the program calls: libmodbus, piControl, clock, errno, mutex, sockets, threads. A
--              program is a function of the history of calls made so far; an environment answers each
--              call by that history. `Outcome` tells a value from a failed assertion and from an
--              access outside a buffer. `IsDocumented` names what is relied on.
--   Processor  src/ComAndDataProcessor.c: process_modbus_action with a function for each case of its
--              switch (Cases), reset_modbus_action_status, write_error_message. Proofs in Safety,
--              Registers, Bits, Coils and Status.
--   Slave      src/ModbusSlaveThread.c and src/piProcessImageAccess.c: process_modbus_request, the two
--              accesses to the process image (described in Areas), and in Tcp the loop that serves all
--              connections, for what `select` answers about each descriptor. What libmodbus does to the
--              mapping is the parameter `serve`. Threads has both threads from their start to their
--              end, with proofs in Released and Served; Resources counts what they allocate and release.
--   Parser     src/piConfigParser/piConfigParser.c: the look-ups (Variables) and
--              parse_modbus_master_action_list with a function for each part of an action. json-c,
--              strtoul, strtoumax, regexec and calloc are the parameter `Libraries`.
--   Device     The rest of piConfigParser.c: the file itself (File, with its proof in Reading), the
--              interface of a device (Interface), the part of the process image that a section of
--              variables lies in (Section), and the lists of masters and slaves. Proofs in Bounds,
--              Lists, Slaves, Variables, Extents and Texts. `Result` is a parsing_error with what is
--              stored where there is none; `Platform` has the types of json-c, CHAR_MAX and calloc.
--   Master     src/ModbusMasterThread.c: the timeout and the pause between telegrams (Times), and the
--              rounds of the TCP and RTU loops as steps on the variables that live from one to the next
--              (Rounds). Connection is one pass of the outer loop over TCP, and Whole leads from parsed
--              actions to the first state of a loop. Threads has both threads from their start to their
--              end. Scope says which calls a thread may make; Confined, Traces, Reach, Prepared and
--              Permitted follow its calls from one event up to the thread, for any set of calls that
--              contains those, and Runs concludes. Released and Balance count the contexts in the same
--              way. Failure has a thread without memory.
--   Program    src/piModbusSlave.c and src/piModbusMaster.c: one pass of each outer loop. The threads
--              are known by their place in the array; what a failed pthread_create leaves there, for the
--              master, is the parameter `left`. Proofs in Threads, Passes and Slaves. System follows a
--              master from the text of the configuration file to the end of its thread.
--   Tests      Runs, and instances of the theorems.
--
-- Numbers are natural numbers; where the source stores in 8, 16 or 32 bits, the remainder is written
-- out. A `time_t` is not bounded. The inner loop of the TCP slave has fuel: 1025 steps are enough,
-- since a descriptor is below 1024. The loop over the actions of the configuration and those over
-- coils are by recursion on what they go through.
--
-- The loops that wait for a device, for masters or for a reset have fuel: where what is waited for
-- comes at the try k, more fuel than k is enough.
--
-- The loop of a master or a slave has no end in the source; here a number of rounds or requests is
-- given, and what is shown holds for every number. A thread is cancelled between two of them.
--
-- Not modelled: log messages, which have no effect on what is modelled, but for the texts of the error
-- codes (Messages); the memory of strings, and the failure of the allocations for them; how the
-- threads of a program are interleaved.
pub mod Config
pub mod Device
pub mod External
pub mod Master
pub mod Parser
pub mod Prelude
pub mod Processor
pub mod Program
pub mod Scheduler
pub mod Slave
pub mod Tests
