-- ===== src/Tasks.antt =====
-- The loops of the tasks that inputs and outputs run: src/srt_stream.rs, src/udp_stream.rs and
-- src/spts_input.rs. A task is a function of what happens to it, one event after the other; what it
-- sends is the list of its messages.
pub mod Messages
pub mod Srt
pub mod SrtLaws
pub mod SrtStatus
pub mod Udp
pub mod UdpLaws
pub mod Spts
pub mod SptsLaws
