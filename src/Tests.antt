-- ===== src/Tests.antt =====
-- Runs of the models on concrete inputs, and the theorems at inputs that meet their hypotheses.
mod Server
mod Client
mod Pool
mod Table
mod Queue
mod Runtime
mod Delivery
mod Timely
mod Messages
mod Pages
mod Memory
mod Frames
mod Stores
mod Reopen
mod Typed
