-- ===== src/Htttp.antt =====
-- libhtttp, the HTTP/1.0 grammar that both systems speak: core/src/libhtttp/htttp.c.
pub mod Result
pub mod Message
pub mod Parse
pub mod Serialize
pub mod Numbers
pub mod Lines
pub mod Wire
pub mod Sent
pub mod Reads
pub mod Bodies
pub mod RoundTrip
pub mod Tests
pub mod Parsed
pub mod Ends
pub mod Reply
