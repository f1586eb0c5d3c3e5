-- ===== src/Examples.antt =====
-- Concrete runs of the services of src/zero/app.
mod Plans
mod Decisions
mod Graphs
mod Orders
mod Gates
mod Ticks
mod Answers
mod Instances
