-- ===== src/Tests.antt =====
-- Concrete inputs at which the theorems on the code under src/ apply.
mod Numbers
mod Building
mod Recording
mod Sharing
mod Published
mod Reading
mod Diagnosing
mod Windows
