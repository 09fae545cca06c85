-- ===== src/Queries/Schedule.antt =====
-- crates/gum-store/src/queries.rs: when a recurring job is due. `none` stands for a call that does
-- not return: a panic of `split_at` inside a character, or a loop whose fuel is used up.
pub mod Interval
pub mod CronField
pub mod Cron
pub mod Due
