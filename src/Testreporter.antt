-- ===== src/Testreporter.antt =====
-- Package testreporter: the messages of a report (messages.go) and the reporter that sends them
-- (reporter.go).
pub mod Messages
pub mod Json
pub mod Reporter
