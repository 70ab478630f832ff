-- ===== src/Manager.antt =====
-- phy_device_manager.h and phy_device_manager.cpp: the table of known devices, the requests in
-- flight and the subscriptions. `State` has the state and the lookups, `Receive` the handler of
-- incoming packets, `Execute`, `Fetch` and `Subscribe` the outgoing operations.
pub mod State
pub mod Receive
pub mod Execute
pub mod Fetch
pub mod Subscribe
pub mod Valid
pub mod Requests
pub mod Steps
pub mod Device
pub mod Registry
pub mod Announced
