-- ===== src/Scheduler.antt =====
-- crates/gum-scheduler: the rounds of the scheduler, and the probes that it sends to providers.
pub mod Probes
pub mod Loop
