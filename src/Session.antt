-- ===== src/Session.antt =====
-- src/session: the `.olivawrec` format, repeated `[u32 LE length][postcard(CarEvent)]` records.
-- `Recorder` writes it through `BufWriter`, `Read` parses it, `Replay` feeds it to the pipeline.
-- `Stream` is the format as a function of the events; `RoundTrip` and `Crash` are about what is
-- read back.
pub mod BufWriter
pub mod Recorder
pub mod Read
pub mod Stream
pub mod RoundTrip
pub mod Crash
pub mod FullDisk
pub mod Replay
mod Tests
