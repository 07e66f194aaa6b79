-- ===== src/Tests.antt =====
-- The theorems at concrete inputs.
mod Levels
mod Queue
mod Orders
mod Messages
mod Log
mod Outbound
mod Feed
mod Market
mod Ring
mod Torn
mod Kernel
mod Reactor
mod System
mod Packets
mod Arrivals
