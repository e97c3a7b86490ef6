-- ===== src/Examples.antt =====
-- Runs of the model on concrete inputs, and its theorems at concrete inputs.
mod Numbers
mod Data
mod Maps
mod Entries
mod Ops
mod Words
mod Sections
mod Modules
mod Built
