-- ===== src/Link.antt =====
-- The switch of 2.1.LinkLayerSim: which addresses it hands out, and which neighbour it sends a packet
-- to. The comments name the files of that directory.
pub mod Address
pub mod Map
mod Tests
