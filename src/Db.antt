-- ===== src/Db.antt =====
-- The statement queue of libtetrisdb: core/src/libtetrisdb/pipe/queue.c. The child process behind
-- it (`db_proc_t` and the calls of proc.c) is a parameter of the definitions that use it.
pub mod Queue
pub mod Ring
pub mod Execute
pub mod Stop
pub mod Run
pub mod Tests
