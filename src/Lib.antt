-- ===== src/Lib.antt =====
-- The telemetry hub for Olivaw vehicles (`src/*.rs`, Rust), as definitions that run and theorems
-- about them.
--
-- How the program works. Each car talks over MQTT. An event of a car (`src/ingest`: a status, a
-- telemetry sample or one lidar rotation) goes through one channel to the pipeline
-- (`src/pipeline.rs`), which records it (`src/session/recorder.rs`), updates the car's snapshot in
-- the hub's state (`src/state.rs`), and hands rotations to the car's own SLAM worker
-- (`src/slam/worker.rs`) through a mailbox of one frame. Poses and rendered maps
-- (`src/slam/map_png.rs`) come back through a second channel and go into the state, from where the
-- HTTP and WebSocket API (`src/api`) serves them.
--
-- Which file models what. Functions and fields have the source's names unless a comment says so.
--   Ingest, Ingest/Mqtt     src/ingest/mod.rs; `options`, `Commander` of src/ingest/mqtt.rs
--   Ingest/Decode           what a car publishes, as examples/fake_car.rs does
--   Session/BufWriter       the standard library's `BufWriter<File>` on a disk of bounded room
--   Session/Recorder, Read  src/session/recorder.rs: `Recorder`, its `Drop`, `read_all`
--   Session/Stream, RoundTrip, Crash   a recording as bytes, read back whole, cut and after a kill
--   Config                  src/config.rs
--   Units                   src/units.rs
--   Slam/Worker             src/slam/worker.rs: the mailbox and one round of the thread's loop
--   Slam/Worker/Decimate    `decimate`
--   Slam/MapPng             src/slam/map_png.rs; Gray and Pgm are about its two images
--   State, State/Cars, State/Snapshots   src/state.rs
--   Pipeline                src/pipeline.rs: a step for each branch of `select!`, a run for the loop
--   Pipeline/Car            the abstract machine of one car; Others, Ticks, Refines, Sound and
--                           Machine relate the pipeline to it
--   Pipeline/Counts, Trajectory, Maps, Listed    a car's snapshot, and the list of them, after a run
--   Api/Http                src/api/http.rs: the handlers; Commands and Served are about them
--   Session/Replay          src/session/replay.rs: the task as a list of sleeps and sends
--   Slam/Worker/Cadence, Numbering   which maps a worker's thread sends; Cases splits a round
--   Ingest/Subscriber       src/ingest/mqtt.rs, `spawn`: the loop over what the MQTT client reports
--   Slam/Worker/Mailbox     the mailbox between the pipeline and a worker's thread, as a step relation
--   Api/Ws                  src/api/ws.rs, `session`
--   Api/Client              what a client of it shows; Sync and CaughtUp relate it to the hub
--   Pipeline/History        what a run leaves as it is: the events that were broadcast before
--   Ingest/Serial           src/ingest/serial.rs; Frame, Numbering and Cadence are
--                           about what it sends
--   Broker                  src/broker.rs: the configuration of the embedded broker
--   Start                   src/main.rs: a list of the parts that were started, and how `main` ended;
--                           Order, Quiet, Needs, Parts, Served and Sources are about it
--   Sim                     src/sim/room.rs: the room and `cast`; Nearest is about it
--   Sim/Lcg                 its generator
--   Sim/Drive               its `run`; Points, Sent and Turns are about it
--   Api/Router              src/api/mod.rs: the router, and the server beside the pipeline; Harmless
--                           relates the two
--   FakeCar                 examples/fake_car.rs; Heard is about what the hub makes of it
--   Ingest/Mqtt/Connections the options of the hub's two MQTT connections
--   Session/FullDisk        a recording on a disk that is too small for it; BufWriter/Given carries it
--   Pipeline/Recording, Replayed   what a run of the hub records, and what its replay brings back
--   System                  the pipeline, the SLAM threads of all cars and the channel between them, as
--                           a step relation; Lane is one car's part of it, Heard, Threads and Refines
--                           relate the two, Poses and Versions are about what is broadcast,
--                           Roused and Progress about a thread that a frame waits for
--   Viz                     src/viz/rerun.rs, and which calls of it a worker's thread makes; Viewed
--                           and Follows compare them with what is sent
--   Slam/Toy                a grid and a thread's run that several tests share
--   Prelude, Text, Dict     shared lemmas, texts as bytes, hash maps as association lists
--   External, External/Toy  what comes from olivaw-proto, olivaw-slam, postcard, png and the
--                           floating-point types: parameters, with concrete functions for tests
--   Tests (in each folder)  runs at concrete inputs
--
-- How state and time are modelled. A `Hub` and the locals of the pipeline are records that each
-- operation takes and returns. Locks are held for one operation at a time, so an operation is one
-- atomic step; a run is the sequence of branches that `select!` took, so a list of inputs is one
-- interleaving. System adds the SLAM threads and the channel from them: there a step is one action of
-- the pipeline or of one thread, and what a thread computes between two actions is part of one, since
-- it reads nothing that others write. The condition variable of a mailbox is a flag of it, which says
-- that the thread sleeps: a thread that finds the mailbox empty falls asleep, and wakes when it is
-- notified, or without cause. Clock readings, the success of starting a thread and of sending
-- are part of an input. Broadcast events are collected in a list.
--
-- Bounds. Unsigned counters wrap at the width that the source gives them (`% 2 ^ 64`); the native
-- ℕ stands for `usize` where only sizes of lists in memory are counted. The loop of `read_all`
-- takes fuel, one more than the number of bytes, of which each round takes four at least. The decimal
-- notation and UTF-8 decoding take as fuel a bound of what they write or read. The two loops
-- that wrap an angle in the simulator turn as often as a function of the angle allows, which is a
-- parameter: the floating-point numbers are parameters too, and whether these loops end depends on
-- them. All else is structural recursion.
--
-- What is not modelled: log output, the rerun viewer, argument parsing, the network sides of
-- rumqttc, rumqttd and axum, among them how the server ends once it runs, and JSON. Each closes over
-- a library that is not part of the repository or has no effect on the state.
-- Of src/session/replay.rs the time that passes is not modelled, only the sleeps asked for.
pub mod Prelude
pub mod Text
pub mod Dict
pub mod External
pub mod Ingest
pub mod Postcard
pub mod Session
pub mod Config
pub mod Units
pub mod Slam
pub mod State
pub mod Pipeline
pub mod Api
pub mod Broker
pub mod FakeCar
pub mod Sim
pub mod Start
pub mod System
pub mod Viz
