-- ===== src/Tests.antt =====
-- The theorems at concrete inputs, and runs of the code by evaluation.
mod Sort
mod Common
mod Matching
mod Trading
mod Data
mod Rings
mod Mirrors
mod Orders
mod Printing
mod Sockets
mod Engine
mod Delivery
