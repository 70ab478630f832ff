-- ===== src/Tests.antt =====
-- Runs of the code at concrete inputs, and the theorems at concrete data.
mod Fixtures
mod Manager
mod MeshSocket
mod Socket
mod CApi
mod App
mod ArgParser
mod CodeTables
mod CallbackDevice
mod Devices
mod Requests
mod Transfers
mod Library
mod Peripheral
