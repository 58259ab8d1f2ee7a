-- ===== src/Lib.antt =====
-- The ESP NMEA bridge receives NMEA sentences on a serial port and forwards them to TCP peers,
-- with a configuration in flash, a status LED, a telemetry page and firmware updates over the web.
--
-- Parts. The receiver (Uart, src/uart_nmea.c) cuts the bytes of the port into lines, asks the AIS
-- filter (Ais, src/ais_mmsi_filter.c) whether a line carries the own vessel's report, and
-- publishes the others to the bridge (Bridge, src/nmea_bridge.c), which queues each for every open
-- sink; a TCP session (Session, src/tcp_nmea_session.c) takes from its sink and sends to its peer,
-- in a slot of the TCP server (Server, src/tcp_nmea_server.c). The configuration (Config,
-- src/bridge_config.c and bridge_config.h) checks settings, saves them as records and loads them
-- at boot. Ota (src/ota_update.c) takes a firmware image; Ota.Disabled is the build without it.
-- Web (src/web_app.c) reads HTTP requests (Web.Http), hands the body of an upload to Ota
-- (Web.Upload), checks a configuration object (Web.Payload) and gives it to the setters of Config
-- (Web.Update), and chooses among these by method and path (Web.Client); what these hand to the
-- response is a value, which Web.Send sends, and Web.ConfigJson is the text of the configuration.
-- Telemetry (src/bridge_telemetry.c) summarises counters, Led (src/status_led_policy.c) chooses
-- the LED's colour and Led.Driver (src/status_led.c) shows it. Wifi (src/wifi_manager.c) keeps the
-- station connected, and the TCP client (Client, src/tcp_nmea_client.c) runs a session with a
-- configured server or the gateway that Wifi knows. Main (src/main.c) starts the parts and carries
-- a change of the configuration to Uart and Client. Prelude holds the shared helpers.
--
-- Correspondence. A struct is a record and an enum a data type; the statics of a file are one
-- record that the operations take and return. The operations bear the functions' names without the
-- file's prefix, so `should_drop` is `ais_mmsi_filter_should_drop` and `set_sta` is
-- `bridge_config_set_sta`. A `char` array is the list of its bytes, and `cstr` its text.
-- Arithmetic is on natural numbers, with u8, u16 and u32 where the source wraps. A section under a
-- lock is one step; where threads share more than that, as in Client and Wifi, a thread is a
-- function of a place and the shared state that makes one step, and `Reaches` has the states that
-- the steps lead to in any order. In Wifi, where the handlers of several threads write the flags
-- without a lock, a step is a whole handler, and `Reaches` has besides a write of any of the flags
-- and of the back-off at any time, so that it holds every state of the writes in between each
-- other, and more. An error number is the constructor `error`, or a constructor of its own in
-- Bridge.
--
-- Parameters. Zephyr is not part of the repository: its message queue (Bridge.Queue), its settings
-- subsystem (Config.Store and `KeyStore` of Config.Reset) and its flash and boot interfaces
-- (Ota.Flash) are records of operations with the documented laws as fields. Buffer sizes of
-- Kconfig are arguments, and so are the JSON parser of Web.Update, the digits that `snprintk`
-- writes for `%u` and `%zu` and, as lists of answers, what sockets give: a function of Web or
-- Session that runs out of answers gives `none`, since it still waits.
--
-- Fuel. `reset_loop` of Config.Reset has a bound on its passes: one more than there are stored
-- keys, since every pass but the last deletes one. `scan_octets` of Config.Valid has five rounds,
-- one for each of the four octets that an address can have and one for the end of the text. All
-- other loops are recursions on the data, on a count that the source keeps or on the answers they
-- read.
--
-- Not modelled: the TCP server's listening socket (src/tcp_nmea_server.c), the listening thread of
-- the web server and the text of the status response (src/web_app.c), the shutdown handlers of
-- src/wifi_manager.c, the statistics log of src/main.c and the service records of
-- src/nmea_dns_sd.c, which are mostly calls of Zephyr; log output anywhere.
pub mod Prelude
pub mod Ais
pub mod Uart
pub mod Bridge
pub mod Config
pub mod Ota
pub mod Telemetry
pub mod Session
pub mod Server
pub mod Client
pub mod Wifi
pub mod Main
pub mod Web
pub mod Led
