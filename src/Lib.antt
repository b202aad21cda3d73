-- ===== src/Lib.antt =====
-- polysock: a model of the program's sockets and of the traffic that it moves between them.
--
-- The program binds two sockets: a thread reads whole messages from one and writes them to the
-- other. Sockets are made by factories from a configuration in JSON. A `SocketWrapper` turns reads
-- and writes of bytes into reads and writes of typed values, and `read_all` collects a message. The
-- test generator is a socket that is only read: it produces the iterations of a pattern.
--
-- Which file models what (paths of the program from the repository's root):
-- - Args: src/args.rs and src/main.rs. Args has the parsed command line and the closure
--   `set_decorators`, Args/Factories the `FACTORY_MAP` over an `Environment`, Args/Scenario
--   `get_scenario`, `get_oneliner_command`, `print_info` and `main`; what gets a command is passed on
--   as a continuation. Args/Order is about what a traced socket prints, Traced, Delivered and Run
--   about runs.
-- - Base: what an operation does (Base/Io): its outcome, the state after it and what it shows.
--   Fallible code returns an `Outcome`: `ok`, `err`, `panic`, `undefined` for what an `unsafe` block
--   may not do, `exit` for the end of the process, and `no_fuel`.
--   A value is dropped where a function returns or unwinds (`unwind`); a drop that panics while a
--   panic unwinds aborts the process. Base/Lists measures lists by native numbers; Base/Tests has the
--   Boolean tests, Base/Outcomes states what results hold.
-- - Sock: the traits `SimpleSock`, `SockBlockCtl`, `SockInfo` and `SocketFactory` of
--   src/sock/mod.rs. A `ComplexSock` is a state with its operations; `read` is given the buffer and
--   returns the count and the new buffer. `create_sock_blockctl` is the default method.
-- - Sock/Wrapper: `SocketWrapper` of src/sock/mod.rs. `generic_read`, `generic_write` and
--   `read_all` have the source's names; `read_loop`, `elements` and `read_all_loop` are their loops.
--   Sock/Wrapper/Bytes, Transfer and Delivers have what a client of the wrapper uses.
-- - Sock/Manager: `SocketManager` of src/sock/mod.rs. `binding_thread` is the thread's loop, given
--   the values that the loads of the flag return, and `transfer` is one round of it.
--   Sock/Manager/Copies is about the messages that the thread copies, for any two sockets;
--   Sock/Manager/Binding follows the creation of the two sockets, Keeps the socket written to.
-- - Sock/Threads: the two threads that `SocketManager::bind_bidirectional` of src/sock/mod.rs
--   spawns, over the locks of the two sockets, the counts of their `Arc`s and the flag.
--   `thread_turn` is what one thread does between two points where the other one can get in; `run`
--   follows a schedule of such turns and of the clearing of the flag. Sock/Threads/Counts and Safety
--   are about the locks, Progress about who can go on, Steps and Shutdown about the end of the
--   threads, Messages and Forwarding about what they hand on, Isolation about a socket during
--   a call of it, Answers about sockets whose calls come to an end, Alike and Played about sockets that
--   differ in what they show only.
-- - Sock/Decorators: src/sock/decorators.rs. The three uses of `socket_decorator!` are the
--   constructors of `Decorator`; `decorator` is the socket around another, `decorator_factory` its
--   factory. A `println!` of a decorator panics if the standard output does not take its line.
--   Sock/Decorators/Simulation compares two sockets that differ in what they show only;
--   Transparent and Trace are about what the decorators leave alone and what they print, Bound and
--   BothWays about the binding of decorated sockets.
-- - TestGen: src/sockets/testgen.rs. TestGen/Strategy has one `..._read` for each strategy and
--   `reset_priv`, TestGen/Gen the socket `SimpleTestGen`, TestGen/Factory `TestGenFactory`.
--   TestGen/Pattern says without positions, chunks or private states which bytes an iteration has;
--   TestGen/Valid is the invariant. TestGen/Pattern/Fill, Read, Delivery, Created and Pump are
--   about the strategies, the reads, `read_all`, the factory and the thread, TestGen/Limit about the limit of
--   iterations, EmptyBlocks about blocks of the size 0, and Bounds about reads from any state.
-- - SerdeHelpers: src/serde_helpers.rs, and the attributes of the configurations that name it. The
--   derived parser of a configuration is given as one to its fields, of which some may be missing;
--   `udp_config`, `client_config` and `server_config` take the defaults for them.
-- - Net: the operating system's sockets, a parameter. Net/Received follows the reads from one to the
--   messages of `read_all`, for any socket that is an `IsReceiver`.
-- - TcpClient: src/sockets/tcp_client.rs. `open_client`, `close_client`, `read_client`,
--   `write_client`, `set_block` and `create_sock` are the operations; TcpClient/Streams is about
--   what is read of streams and written to them.
-- - TcpServer: src/sockets/tcp_server.rs. `open_server`, `close_server`, `read_server` and
--   `write_server` are the operations; `accept_round` is a round of the thread that accepts
--   connections, which runs for some rounds during `open` and before each other operation, as many as
--   a function of the state says, and may be within one at `close`.
--   TcpServer/Factory is the factory; TcpServer/Packing, Messages, Accept, Serving and Shutdown are
--   about what reads return, what the thread does and what a server is left as.
-- - Udp: src/sockets/udp.rs. `read_udp`, `write_udp`, `set_block` and `create_sock` are the
--   operations; Udp/Datagrams follows datagrams through the thread.
-- - Oneliner: src/modes/oneliner.rs. `start`, `wait`, `stop` and `execute`. A `JoinHandle` is the
--   run of its thread, given what its loads of the flag return, or the turns of two threads.
--   Oneliner/Joins, Execute, Ends, Traced and Generate follow a run of the program to the
--   end of the process.
-- - Terminal: src/sockets/terminal.rs. The thread of `spawn_stdin_channel` takes turns in the
--   `background` of the operations; Terminal/Socket has the operations and the factory.
--   Terminal/Handles and Modes are about the thread and the modes, Lines and Queued about what is
--   typed.
-- - Tests: runs on sample inputs, and the theorems at concrete inputs.
--
-- Bounds and fuel. Bytes and sizes are natural numbers; where the program's arithmetic can pass the
-- bound of its type, the wrap of a release build is written out (`% 2 ^ 64` for products of `usize`
-- and for the counter of iterations, `% 2 ^ 32` for identifiers, `% 256` for bytes). The loop of
-- `generic_read` runs on 2 rounds of fuel: a first read that fills the buffer, or falls short of it,
-- is the last. `read_all` loops as long as its
-- socket answers with full chunks, so its fuel is an argument; the theorems on the generator give
-- it as one round for each full chunk of 1024 bytes and one more.
--
-- Parameters. The operating system's sockets are records `TcpOs` and `UdpOs` of their calls, and
-- the terminal's input and output are a `Console`.
-- `serde_json` is a function `from_str` to a configuration or a message; reading a file is one,
-- `read_to_string`; the text of an error is a function `display`. The generic type `T` of the typed
-- reads and writes is a `Pod`: its size and its bytes, with the laws `IsPod`. The schemas in the
-- documentation of the sockets are an argument. The private state `Box<dyn Any + Send>` of a
-- strategy is a byte or a text, the only values that the program puts there. The text `ip:port` of
-- an address is a pair.
--
-- Not modelled: the parsing of the command line by clap, and how the derived parsers find the fields
-- of a configuration in its text; a second `open` of a server, and the poisoning of the lock on its
-- clients; lines of the logger; failures of the standard output or error at the lines that the
-- one-liner mode, `print_info` and the test generator print.
pub mod Args
pub mod Base
pub mod Net
pub mod Oneliner
pub mod SerdeHelpers
pub mod Sock
pub mod TcpClient
pub mod TcpServer
pub mod Terminal
pub mod TestGen
pub mod Tests
pub mod Udp
