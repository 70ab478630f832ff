-- ===== src/Lib.antt =====
-- khawasu_pc: a client of the Khawasu smart-home protocol over the mesh network Fresh, as a C++
-- library, a C library and the program hwctrl.
--
-- The program. `PhyDeviceManager` knows the devices that have announced themselves, sends requests
-- to their actions, waits for answers, and keeps subscriptions. Packets come to it from the mesh
-- library, whose interfaces to the network include `MeshSocketInterface`, packets over a byte
-- stream of a socket. The C library wraps the manager; hwctrl reads its settings by `ArgParser`.
--
-- The files, and the code that each is about (paths from the repository's root):
--   Base, Base/*: shared names of the libraries; Boolean tests over native numbers (Base/Tests),
--     lists (Base/Lists), what a call comes to: a value, a fault, or no return (Base/Outcome), and
--     `std::unordered_map` as an association list (Base/Dict).
--   Protocol: what the code uses of khawasu_core, which is not part of the repository. The layouts
--     of packets are the parameter `Proto`.
--   DeviceInfo, DeviceInfo/*: device_info.h, device_info.cpp. `log_device_info` is the constructor
--     of `LogDeviceInfo`, its two loops are `parse_attribs` and `parse_actions`. Announce describes
--     what a device announces, and how it lies in memory.
--   Manager, Manager/*: phy_device_manager.h, phy_device_manager.cpp. State has the fields and the
--     lookups; Receive `handle_packet`; Execute and Fetch `execute_action` and `fetch_action`, by
--     number and by name, awaited or not; Subscribe `subscribe_action`; Device
--     the methods of `LogDeviceInfo` that forward to them. Their child modules, Valid, Steps,
--     Registry, Requests and Announced have the theorems; Steps says what every call keeps. A method
--     takes the manager and returns the new one; packets sent and callbacks called are recorded as
--     events.
--   Socket, Socket/*: socket/socket_base.h, unixsocket.cpp and winsocket.cpp: `create`, `connect`,
--     `accept` and `address_u64` of both, over the system calls; in Names `AddressString`; in
--     Unix/Streams and Windows/Streams the methods that move bytes, over the kernel's buffers.
--     `Platform` and `Transfers` are what the mesh interface uses of either.
--   MeshSocket, MeshSocket/*: interfaces/mesh_socket_interface.h and .cpp.
--     `poll_client` is the body of the loop of `check_packets`, `frame` is what
--     `send_packet` sends; Interface has the constructor, the destructor and `send_hello`. Rounds
--     follows one client through calls of `check_packets` that look at all of them. Calls and
--     Transmit have the loop's body and `send_packet` once more, call by call of the socket,
--     and Loop and Listening all of `check_packets`.
--   Overlay: what the functions `mesh_packet_handler` of c_api.cpp, khawasu_app.h and
--     main_client.cpp share.
--   CApi, CApi/*: c_api.h and c_api.cpp. The functions that `init_ctx` sets as the manager's
--     callbacks stand in CApi, the exported ones in CApi/Functions. A method of the manager runs
--     with no effects recorded, and `with_manager` hands its effects to those callbacks. Lifetime
--     has `deinit_ctx` and any sequence of calls, Ready and Calls what is true between them,
--     Conversation two programs, Listed what a created device tells of its actions, and Program the
--     program of khawasu_capi_test.cpp.
--   CodeTables, CodeTables/Laws: the four functions between enumerators and names in c_api.cpp.
--   CallbackDevice, CallbackDevice/Laws: logical_callback_device.h and .cpp: `add_action`,
--     `on_action_get`, `on_action_set`, `get_api_actions`, `get_action_id`. A handler is what it
--     returns; one for fetches may fault, since it copies memory.
--   ArgParser, ArgParser/*: arg_parser.h and the records of config.h.
--   ConfigFile, ConfigFile/Laws: the function of config.h that reads a file, over what toml++ reads.
--   App, App/Laws: khawasu_app.h, khawasu_app.cpp and main.cpp. The constructor of a serial port is
--     the mesh library's, the parameter `open_serial`.
--   Relay, Relay/*: `DeviceRelay` of main_client.cpp.
--   Tests, Tests/*: concrete data, and the theorems there.
--
-- Choices. A fault ends a run: a failed `assert`, an exception that nothing catches, an access
-- outside the receive buffer, a null pointer, freed memory. Pointers to known devices are
-- addresses, because entries of `known_devices` are never removed. A callback is whether it is set, or the number of
-- a function; it is taken to return without calling the manager. The map's iteration order is that
-- of the association list. A copy of no bytes from or to an empty vector is taken to do nothing.
-- `poll_client` takes the bytes that
-- are there as given; the results of `Recv` and `Send` are looked at in MeshSocket/Calls and
-- MeshSocket/Transmit, over what the kernel takes and gives.
--
-- Bounds and fuel. Request numbers wrap at 2^8, subscription numbers at 2^32, clocks and sizes at
-- 2^64, a port at 2^16. The loop of `ArgParser::process` has one turn of fuel for each argument,
-- which is enough because a turn takes at least one. The waiting loops run along a list of rounds,
-- each with the clock's reading and the packets that another thread handles during the yield: an
-- argument, and a call is pending if the list ends first. The code has no locks; threads are taken
-- to interleave at these points only.
--
-- Not modelled: the vendored toml++ under thirdparties/. Of the modelled classes, printing, the
-- allocation of packets, the copy of an address's bytes for the mesh library, objects of the
-- libraries that are only created, and methods that return a constant or a member are left out.
-- Freeing is modelled for `deinit_ctx` alone: a `CONTEXT*` is `live` or `freed`. What a client's
-- functions do is not modelled, but for what they return.
pub mod Base
pub mod Protocol
pub mod DeviceInfo
pub mod Manager
pub mod Socket
pub mod MeshSocket
pub mod Overlay
pub mod CApi
pub mod CodeTables
pub mod CallbackDevice
pub mod ArgParser
pub mod ConfigFile
pub mod App
pub mod Relay
pub mod Tests
