-- ===== src/Examples.antt =====
-- The theorems at concrete inputs, by the part of the program that they are about.
mod Routing
mod Streams
mod Tunnels
mod Login
mod Packets
mod Flows
mod Proxying
mod Keeping
mod Scripts
mod Layers
mod Queues
mod Serving
