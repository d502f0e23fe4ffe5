-- ===== src/Devices.antt =====
-- ivc/ivc.c: the devices of the driver.
pub mod Publishers
pub mod Counted
pub mod Steps
pub mod Found
pub mod Table
pub mod Places
pub mod Exclusive
pub mod Sections
pub mod Subscribers
pub mod Subscribed
pub mod SubscriberSteps
pub mod Watched
pub mod SubscriberSections
pub mod Driver
pub mod Ioctl
pub mod Unload
pub mod Receive
pub mod Boundary
pub mod InMessage
pub mod Fits
pub mod Send
pub mod Stopped
pub mod Settled
pub mod Peer
pub mod Under
pub mod Whole
pub mod Live
pub mod Files
pub mod Kept
pub mod Rest
pub mod SubscriberRest
mod SectionTests
mod TransferTests
mod Tests
