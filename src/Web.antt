-- ===== src/Web.antt =====
-- src/web_app.c: the web server, with CONFIG_ESP_NMEA_BRIDGE_OTA_UPDATE_ENABLE.
pub mod Reply
pub mod ConfigJson
pub mod Send
pub mod Http
pub mod Upload
pub mod Json
pub mod Payload
pub mod Update
pub mod Client
mod Tests
