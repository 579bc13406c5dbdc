-- ===== src/Codes.antt =====
-- internal/plugin/verification: the codes and the links that prove an address.
pub mod CodeManager
pub mod Digits
pub mod Slots
pub mod OneTime
pub mod LinkManager
pub mod Links
