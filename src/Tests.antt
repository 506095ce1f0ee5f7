-- ===== src/Tests.antt =====
-- Runs of the definitions on concrete inputs, and the theorems at such inputs.
mod Data
mod Env
mod Convert
mod Pages
mod Shell
mod Terminal
mod Store
mod Backend
mod Cluster
mod Gate
mod Card
mod Agent
mod Files
mod Requests
mod Clients
mod Volumes
mod Shown
mod Sanctions
mod Limits
mod Encodings
