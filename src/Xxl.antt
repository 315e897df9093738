-- ===== src/Xxl.antt =====
-- The XXL-JOB executor: the Go package xxl.
pub mod Log
pub mod Dto
pub mod Reply
pub mod TaskList
pub mod Executor
pub mod Options
pub mod Registration
pub mod Clear
