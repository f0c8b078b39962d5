-- ===== src/Streams.antt =====
-- The shared state of the gateway, `ACTIVE_STREAMS` of src/main.rs over the types of src/models.rs,
-- and the functions of src/udp_stream.rs, src/srt_stream.rs and src/spts_input.rs that make the
-- entry of an input or of an output and start its task.
pub mod State
pub mod Spawn
