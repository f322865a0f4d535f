-- ===== src/Monitor.antt =====
-- The service MonitorData, de-ui-system-tools/app/system-manager/monitor-info.js: the list of
-- applications, the window of statistics, the use of the processor, and the timers that ask for them.
pub mod Apps
pub mod Window
pub mod Cpu
pub mod Start
pub mod Socket
mod Tests
