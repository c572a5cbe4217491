-- ===== src/Tests.antt =====
-- The theorems at concrete data, and runs of the definitions.
mod Websocket
mod Buffer
mod Programs
mod Files
mod Events
mod Reactions
mod Schedules
mod Children
mod Assignments
mod Client
mod Storage
mod Dialogue
mod Running
mod Connection
mod Installation
mod Agents
mod Serving
mod Languages
