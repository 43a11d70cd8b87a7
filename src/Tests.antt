-- ===== src/Tests.antt =====
-- Runs of the model on concrete inputs, and an instance of each theorem at an input that meets its
-- hypotheses.
mod File
mod System
mod Fractions
mod Samples
mod Scheduler
mod Processor
mod Slave
mod Device
mod Parser
mod Master
mod Program
