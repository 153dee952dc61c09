-- ===== src/Tests.antt =====
-- The theorems at concrete inputs, and runs of the models.
mod Util
mod Http
mod Net
mod Client
mod Chess
mod Plugins
