-- ===== src/Tests.antt =====
-- Runs of the model on concrete inputs, and the theorems at inputs that meet their hypotheses.
mod Lob
mod Bots
mod Sim
mod Store
mod Client
mod Engine
mod Transpile
mod Walk
mod Worker
mod Pages
mod Arena
