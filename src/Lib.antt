-- ===== src/Lib.antt =====
-- The water quality gateway: a program for an i.MX6ULL board that reads a sensor over Modbus RTU,
-- checks the samples against thresholds, drives an alarm LED and stores and uploads the samples.
--
-- Parts and how they interact. A collecting thread asks the sensor for seven registers
-- (app/src/modbus_rtu.c), makes a sample of them (app/src/sample.c) and pushes it to the raw queue
-- (app/src/sample_queue.c). The processor thread (app/src/processor.c) pops it, computes the alarm
-- word, debounces the LED, which it drives through app/src/alarm_client.c, and pushes the sample
-- to the store queue.
--
-- Files.
--   Base        names of the libraries; Boolean tests, lists, integers, machine words, the laws of
--               the bit operations, and runs of C code that may leave their arrays (`Run`).
--   Float       the type `float` as a parameter: the comparisons and products are the processor's.
--   Modbus      Crc is `modbus_crc16` as its two loops; Crc/Rounds, Crc/Fold and Crc/Residue have
--               the lemmas on a round, on the loop and on residues. Request is
--               `modbus_build_read_request`, Response `modbus_parse_response`, Answer
--               `build_test_response`. Buffers are lists of bytes, `none` is a null pointer, an
--               access out of bounds is `fault`, and an `int` result is an integer. Modbus/SelfTest is
--               `modbus_run_sensor_tests` with the counts that it prints.
--   SampleQueue `sample_queue_t` with `int` indices as natural numbers and the three counters
--               modulo 2^32, the width of `unsigned long` on the board. Commit holds the critical
--               sections, Wait the wait loops: the code holds the mutex except in
--               `pthread_cond_timedwait`, so each wait is one element of a list that says what the
--               other threads did meanwhile and whether the wait timed out. Fifo is the abstract
--               queue; Segment, Valid and Refine relate the two, Blocking and Waiting,
--               Taking are about waiting pushes and pops, Front about pops that need not wait, Deadline is `timespec_add_ms`, and History is about all that can happen
--               to a new queue.
--   Sample      `water_sample_t`, the mock generator and the reading of registers; the clock is an
--               argument.
--   Alarm       the byte that `alarm_client_set` hands to the LED driver.
--   Processor   thresholds, alarm word and debouncing; Processor/Thread is the loop between the two
--               queues, whose rounds are a list that says how the waits of its calls went. `int`
--               counters are natural numbers: they stay below the number of samples of a run.
--   Serial      app/src/serial_port.c: `serial_write`, `serial_read` here, the set-up of the port in
--               Serial/Open. A call of the kernel is a function from what it is asked to what it
--               answers; a loop of `write` calls has a list of them.
--   Modbus/Master  `modbus_read_registers`: the request, its way over the port, and the answer.
--               Modbus/Master/Probe is `modbus_test_serial_read`, Modbus/HexDump is
--               `modbus_hex_dump`, into an array of characters.
--   LedDriver   driver/water_alarm/newchrled.c on the five registers that it maps; LedDriver/Pin joins
--               it with the debouncing of the processor. LedDriver/Loading is `led_init` and `led_exit` with
--               their calls of the kernel, which LedDriver/Kernel orders by a step relation;
--               LedDriver/App is driver/water_alarm/ledApp.c, and LedDriver/Agree joins it with Alarm.
--   Config      app/src/config.c: `gateway_config_t` and its keys here, the string functions in
--               Config/Text, the operations in Config/Load. Strings are lists of bytes; an `int` that
--               `atoi` reads is an integer, since C leaves its overflow undefined.
--   Database    the rows of the table and the SQL statements of the program, over a connection that is
--               an argument; Database/Laws says what the statements do, Database/Binding which row an INSERT
--               makes of the values bound to its parameters, Database/Memory is a list of
--               rows that does so.
--   Store       app/src/sqlite_store.c over that connection; Store/Thread is its thread, whose rounds
--               are a list that says how the waits of each pop went.
--   Uploader    app/src/uploader.c: a connection, the query, a line, a batch, and in Uploader/Thread
--               the main loop and the drain. Uploader/Json is the line of a sample, with numbers printed by
--               Base/Decimal; what "%.2f" prints, the cast of a `float` and the socket are arguments. The drain has fuel, one for each query.
--   Logger      app/src/logger.c. The text and the time of a message are arguments.
--   Gateway     app/src/main.c: Args is the command line, Resources what the program holds, Startup
--               `main` from the first resource on, as the list of its calls, Trial `run_test`, Collect the
--               collecting threads over the line, the clock and the queue. Pipeline joins them with
--               the processor and the store. Main is the whole of `main`: the command line, `config_load`,
--               the logger, the port and the alarm client, then the calls of Startup or Trial.
-- Loops recur on the rounds that are left or on a list; the wait loops recur on the list of waits, and
-- a call that outlasts the list is a result of its own. The only fuel is that of the drain.
--
-- Not modelled: other printed and logged text, the pthread and memory calls themselves, SQLite,
-- sockets, what the kernel does in the calls of the LED driver, and the receiving script.
mod Base
mod Float
pub mod Modbus
pub mod Serial
pub mod SampleQueue
pub mod Sample
pub mod Alarm
pub mod Config
pub mod Database
pub mod Store
pub mod Uploader
pub mod Logger
pub mod Gateway
pub mod LedDriver
pub mod Processor
