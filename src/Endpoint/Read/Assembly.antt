-- ===== src/Endpoint/Read/Assembly.antt =====
-- endpoint.go: the fragments of one packet put together again.
pub mod Copies
pub mod Tally
pub mod Inv
pub mod Bounds
pub mod Place
pub mod Gather
pub mod Whole
pub mod Arrival
pub mod Datagram
pub mod Order
pub mod First
pub mod AnyOrder
