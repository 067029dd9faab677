-- ===== src/Lib.antt =====
-- RadioMesh, a LoRa mesh of sensors around a hub: packets, routing, encryption, authentication and the
-- protocol by which a device joins.
--
-- The parts, and the files that model them:
--   * Types, Codes: the enumerations, topics and return codes of src/common/inc/Definitions.h and Errors.h.
--   * Packet (Packet/Ids, Wire, Mic): src/core/protocol/inc/packet/Packet.h, RadioMeshPacket and its bytes.
--     from_byte_buffer is the constructor from a buffer, and `none` where that reads past the end.
--   * Utils, Crc32: src/common/utils/Utils.h, Utils.cpp and RadioMeshCrc32.h. Utils/Text is toString, and
--     Crc32/Bits, Reflect and Detection show what the CRC tells apart.
--   * PacketTracker: src/core/protocol/inc/routing/PacketTracker.h. The std::list is a list of nodes that
--     have addresses, the std::unordered_map of iterators an association list of addresses.
--   * RoutingTable: src/core/protocol/src/routing/RoutingTable.cpp, on the array of entries.
--   * Crypto: Crypto/Aes is AesCrypto.cpp, Crypto/Cmac is AesCmac.cpp, Crypto/Service is
--     EncryptionService.cpp and Crypto/MicService is MicService.cpp, under src/core/protocol/src/crypto.
--     Crypto/Primitives has AES, CTR, Curve25519 and SHA256 of the Arduino Cryptography Library as
--     parameters, with the laws that the library documents; theorems that need these take IsLawful.
--   * PacketRouter: src/core/protocol/src/routing/PacketRouter.cpp. route_packet takes the radio's answer
--     and returns the code, the buffers that were handed to the radio, and the router.
--   * LoraRadio: src/hardware/src/radio/LoraRadio.cpp. The file has the codes of a transmission, Driver the
--     state and the operations, SetUp and Flags their proofs.
--   * Wifi: WifiConnector.cpp and WifiAccessPoint.cpp of src/hardware/src/wifi.
--   * DeviceBuilder: src/framework/builder/src/DeviceBuilder.cpp. SetUp has the methods of Device.cpp that
--     it calls, on the board's singletons, and Build the steps of build, down to begin of the EEPROM.
--   * Portal: src/framework/device_portal/src/AsyncDevicePortal.cpp, the calls of its servers as values.
--     Search has what find gives, Messages the messages.
--   * Reception: the CRC and MIC checks of src/framework/device/src/Device.cpp.
--   * Storage, KeyManager: src/framework/device/inc/DeviceStorage.h over any byte storage, and
--     src/framework/device/src/KeyManager.cpp.
--   * EepromStorage: src/hardware/src/storage/eeprom/EEPROMStorage.cpp, with the EEPROM library as a
--     parameter. The file itself has the structs and loops, Operations the operations, Entries the list
--     of entries that the bytes stand for; the other children have the proofs, in the order Memory,
--     Bytes, Locate, Unique, Sound, Reading, Writing, Removal, Moving, Defragment, Commit, Beginning,
--     Errors, RoundTrip, Lawful. eeprom_store makes it the storage of DeviceStorage.
--   * Device: the state of RadioMeshDevice and of its InclusionController in one record, since each
--     holds a reference to the other. Device/Protocol, Device/Inclusion and Device/Startup are
--     src/framework/device/src/InclusionController.cpp with initialize and factoryReset of Device.cpp;
--     Device/Receive is handleReceivedData and run. Device/Receive/Steps has the device as a step
--     relation.
--   * Base: the Boolean tests, lists and integers that the parts share. Tests: the theorems at concrete
--     inputs, over a small cryptography that obeys the laws and a storage that is a list of pairs.
--
-- How they interact: sendData fills a packet and hands it to routePacket, which sets the hop and the next
-- hop from the routing table, encrypts the payload, computes the CRC, appends the MIC, sends, and tracks
-- the packet. A received buffer is parsed, looked up in the tracker, checked by CRC and MIC, given to the
-- routing table, decrypted, and then handled by the controller or by the application, or routed on.
--
-- Integers are natural numbers below their width; sums of a uint8_t or uint32_t that can wrap are taken
-- modulo 2^8 or 2^32, also differences of millis(). The loop over AES blocks has the length of the data as
-- fuel, and each round takes a byte at least. Other loops recurse on their data.
--
-- Calls of Logger are left out, since they return nothing. millis(), random(), the chip's id, the radio and
-- the application's callback are arguments; the callback is taken to look at the packet only. Not modelled:
-- the getters and wrappers that only ask a library, the display beyond its parameters, the page of the portal,
-- boards without WiFi or display, the topic names, the random helpers, the examples, and the copy of arduino-timer.
-- EEPROM addresses are size_t: reads past the end give 0, so that sums stay far below 2^32; band and
-- bandwidth, which are floats, are whole numbers of kHz and Hz; a pointer is a number, 0 for null.
pub mod Base
pub mod Codes
pub mod Types
pub mod Packet
pub mod Utils
pub mod Crc32
pub mod PacketTracker
pub mod RoutingTable
pub mod Crypto
pub mod LoraRadio
pub mod Wifi
pub mod PacketRouter
pub mod Reception
pub mod Storage
pub mod KeyManager
pub mod Device
pub mod EepromStorage
pub mod DeviceBuilder
pub mod Portal
pub mod Tests
