-- ===== src/Lib.antt =====
-- esp32-dap-proxy: a CMSIS-DAP probe on an ESP32 (esp-daplink-target), reached over TCP from a host
-- program (esp-daplink-host) that offers it as a USB device through USB/IP.
--
-- Bytes come from the host's socket, the deframer cuts them into requests, `handle` runs a request
-- over the debug transport, and the response goes back in a frame of its own. The SWD transport
-- shifts requests and words over the pins. The host's bridge sends a request over its link, and keeps
-- the response for the bulk reads of the USB host.
--
-- The modules and the code that they model, paths from the repository's root:
--   Frame      esp-daplink-target/src/channel/frame.rs: `Deframer`, with `feed` by the arms of its
--              match; Frame.Wire is the wire form of a frame.
--   Tcp        esp-daplink-target/src/channel/tcp.rs: `recv_frame` over the events that the socket
--              brings, `send_frame` over the outcomes of its writes; the errors of channel/mod.rs.
--   Transport  esp-daplink-target/src/probe/transport/mod.rs: the trait, as a record of functions on
--              a state. Dap takes any transport; Swd implements one.
--   Io         esp-daplink-target/src/probe/io/mod.rs: the trait's required methods as a record,
--              its provided methods as functions. Io.Line says what a clocked line is, and Io.Drive
--              what the output enable behind the pins is.
--   Swd        esp-daplink-target/src/probe/transport/swd.rs, with addresses of probe/target/dp.rs.
--   Dap        esp-daplink-target/src/cmd/dap.rs: Dap.State the state, Dap.Exec the access with
--              retries, Dap.Loop, Dap.Access, Dap.Transfer and Dap.Block the two transfer commands,
--              Dap.Simple the other commands, Dap.Handle the dispatch, Dap.Serve the loop of `serve`
--              over Tcp. Dap.Outcome, Dap.Report and Dap.Connect hold consequences of them, and
--              Dap.Keeps what of the transport's state the commands keep.
--   Run        esp-daplink-target/src/channel/mod.rs: `run`, session after session over Dap.Serve.
--   Link       esp-daplink-host/src/link.rs: `request` with its retry, `read_frame`, and the reads and
--              writes under them, over connections as an argument. Link.Exchange joins it to Tcp.
--   Bridge     esp-daplink-host/src/bridge.rs: `bulk_out` and `bulk_in` over Link.
--   Io.BitBang esp-daplink-target/src/probe/io/bitbang.rs: an `Io` over the pins of esp-hal.
--   Descriptors, Usbip
--              esp-daplink-host/src/descriptors.rs and usbip.rs: Usbip.Control the control endpoint,
--              Usbip.Serve the loop over the URBs, which uses Bridge, Usbip.Attach the handshake in
--              front of it. Usbip.Client is the client's side of the protocol, and
--              Usbip.Describe the text of a log line.
--   Remote     the two programs together: Link and Dap.Serve at the ends of one connection, and
--              Usbip in front of them. Remote.Register has Swd and a debug line behind them.
--   Metrics    esp-daplink-host/src/metrics.rs: the counters that usbip.rs keeps, and the start; those
--              that link.rs keeps are fields of its state. Metrics.Rtt is `note_rtt`, as calls that run
--              at the same time.
--   Logs       esp-daplink-host/src/logs.rs: Logs.Ring the ring of events, Logs.Later what a
--              subscription is sent, Logs.Render the events' texts.
--   Web        esp-daplink-host/src/web.rs: what the routes return, of Metrics, Link and Logs.
--   Args, Host esp-daplink-host/src/main.rs: the command line, and what `main` starts, with the loop
--              of usbip.rs that accepts clients.
--   Target     esp-daplink-target/src/main.rs: `main` from the network on, with Run over Swd over
--              Io.BitBang.
--   Wifi       esp-daplink-target/src/main.rs: the task that keeps the probe in its network.
--   Build      esp-daplink-target/build.rs.
--   Prelude    lists, results, bit masks, bytes and texts.
--
-- State is passed explicitly. A buffer is a list of bytes; an index out of range, which panics, is
-- `none`. Integers keep their width: `done` is a u8 in one command and a u16 in the other, `usize`
-- has 32 bits. A read that is not there yet leaves `recv_frame` waiting.
--
-- Fuel: the retry loop of `exec_transfer` has fuel for 129 attempts, which is one more than the
-- retries it may make; the polling of `dap_connect` has its 200 rounds; `serve` has fuel for a
-- round for each read and one more; the loops of usbip.rs have a round for each byte that comes and
-- one more. Every other loop is a recursion on its own count or list.
--
-- Not modelled: the start-up of the board, its radio and its network stack, the server that serves
-- the routes of the web console, its page, and the set-up of the log's subscriber, which call their
-- libraries only; the texts of most log lines. The sockets, the pins' hardware, the debug target, the
-- WiFi controller and the clock are arguments. The USB/IP server's loop is that of one
-- connection; connections that run at the same time are not modelled.
pub mod Prelude
pub mod Args
pub mod Frame
pub mod Tcp
pub mod Transport
pub mod Io
pub mod Swd
pub mod Dap
pub mod Link
pub mod Bridge
pub mod Descriptors
pub mod Logs
pub mod Metrics
pub mod Run
pub mod Remote
pub mod Usbip
pub mod Build
pub mod Wifi
pub mod Web
pub mod Host
pub mod Target
