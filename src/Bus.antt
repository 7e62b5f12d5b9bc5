-- ===== src/Bus.antt =====
-- The interface of the event bus that the publishers use (`Publish` of `MessageBus`,
-- internal/core/bus.go). `B` is the state behind it; a failed publish returns its error's text.
pub mod Local
pub mod Nats
use openspace_os_core.Base.{String, Option}
use openspace_os_core.Event.{Event}

pub record MessageBus (B : Type 0) : Type 0 where
  pub publish : B → Event → Option String × B
