-- ===== src/Tests.antt =====
-- The theorems at concrete inputs: a codec, streams, a hash and a runtime to instantiate them with,
-- and a module of examples for each part.
pub mod Fixture
pub mod Actors
pub mod Checks
mod Units
mod ProtocolUnits
mod TransportUnits
mod RenderingUnits
mod ClientUnits
mod DispatcherUnits
mod ServerUnits
mod CoreUnits
mod CoreExamples
mod ServerExamples
mod ServiceExamples
mod SystemExamples
mod RoomExamples
mod LiveExamples
mod ReturnedExamples
mod SettlingExamples
mod HandshakeExamples
mod ClientExamples
