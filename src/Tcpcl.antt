-- ===== src/Tcpcl.antt =====
-- pkg/cla/tcpclv4/internal: bundle transfers of the TCP Convergence Layer, version 4.
pub mod Transfer
pub mod Sending
mod Tests
pub mod Words
pub mod Messages
pub mod Switch
pub mod Stages
