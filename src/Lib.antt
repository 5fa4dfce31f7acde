-- ===== src/Lib.antt =====
-- airplay2-lite, an AirPlay receiver for OpenWRT: a model of its C code and what holds of it.
--
-- The program is one process. src/main.c initialises the modules below, runs the loop of the server and
-- cleans up. Each module keeps static variables under one mutex; the volume control calls the audio
-- output, and the others do not call each other. A module is a record of its variables, and a function of
-- it is a function of the same name, without the module's prefix, in the state monad of Base.Effects: it
-- returns, or blocks for ever on a mutex that its thread holds, or faults where C leaves the behaviour
-- undefined. Pointers that may be null are options, and what a library or the kernel answers in a call is an
-- argument of the call, so that a statement about all answers is one about all arguments.
--
--   Base               numbers, lists, C strings and arrays, `int`, the monad, the process's descriptors
--   CryptoUtils        src/crypto_utils.c: Base64 with the block behind a pointer as the state, hashes and
--                      pairing (Hashes), AES over EVP (Cipher)
--   NetworkUtils       src/network_utils.c: the queries and sockets, with the descriptors as the state;
--                      Accounts is a client of all that open a descriptor
--   Multiroom          src/multiroom.c: the arrays of rooms are eight slots; Names has the list of names that
--                      they stand for, Ledger the account of their sockets, and Threads the two functions
--                      that read a variable without the mutex, with the calls of other threads between
--   PlaybackControl    src/playback_control.c: the player; Machine has what each call does to its state, and
--                      Trace the automaton of any sequence of calls
--   AudioOutput        src/audio_output.c: the variables with ALSA's open streams; Invariant has what holds
--                      between two calls, and Playable what a client has to respect
--   VolumeControl      src/volume_control.c, with the audio output that it calls as a field
--   AirplayServer      src/airplay_server.c: the server object; Accounts counts the descriptors that it
--                      holds, and Info has the text about a client
--   Daemon             src/main.c: Startup is main up to its first init, Program main behind it, with the
--                      records of the modules and one account of the process's descriptors (State)
--
-- Machine integers: uint32_t has 32 bits, and so has size_t, as on the MIPS and 32-bit ARM targets; both
-- wrap where the code computes with them. On AArch64 size_t has 64 bits, and the sizes that the statements
-- leave out do not wrap yet. `int` is an integer without bounds: the products of the code stay below
-- 255 * 255, and the counters below the sizes of the arrays. The one narrowing, of a length that is handed to
-- EVP, is written out. Floats are a parameter with the laws of IEEE 754 that the code relies on. The loop of
-- base64_encode runs on fuel, with as much fuel as bytes, each round taking one at least, and so does the
-- printing of a decimal number, with fuel for one more digit than the number, which is more than it has. The
-- other loops are recursion on a list or on a number of rounds. The loop of main runs along a schedule of
-- passes, and blocks at the end of one in which no signal ends it.
--
-- Not modelled: log lines, and with them the entry group's callback, which writes nothing else; signals
-- whose handler main does not set, and what daemon does beside leaving the terminal. A mutex is taken or free at the
-- start of a call, and what runs under it is one step; the other threads come in where Multiroom reads a variable
-- without it.
-- Descriptors are taken to be below FD_SETSIZE, a malloc that a function does not check to succeed, and
-- callbacks not to call back into the
-- module, whose mutex is held while they run.
pub mod Base
pub mod CryptoUtils
pub mod NetworkUtils
pub mod Multiroom
pub mod PlaybackControl
pub mod AudioOutput
pub mod VolumeControl
pub mod AirplayServer
pub mod Daemon
