-- ===== src/Dap.antt =====
-- esp-daplink-target/src/cmd/dap.rs: the CMSIS-DAP commands, over the transport as an interface.
-- A request and a response buffer are lists of bytes. A handler returns the next state, the buffer
-- and the count of response bytes; `none` is a panic of an index out of range. `println!` is left
-- out, but for the count of error lines, `err_logs`.
pub mod State
pub mod Exec
pub mod Loop
pub mod Access
pub mod Transfer
pub mod Outcome
pub mod Block
pub mod Simple
pub mod Connect
pub mod Handle
pub mod Keeps
pub mod Report
pub mod Serve
mod Tests
