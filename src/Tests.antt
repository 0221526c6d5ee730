-- ===== src/Tests.antt =====
-- Runs of the model at concrete inputs, over a small platform.
mod Fixtures
mod Dns
mod Query
mod Network
mod Transport
mod Settings
mod Provider
mod Compare
mod Frame
mod Cli
mod Schema
mod Skill
