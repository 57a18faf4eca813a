-- ===== src/Logs.antt =====
-- src/internal/thread.rs: the logs of a thread.
use swym.ReadLog
use swym.ReadLog.{ReadLog}
use swym.WriteLog
use swym.WriteLog.{WriteLog}
use swym.Gc.Garbage
use swym.Gc.Garbage.{ThreadGarbage}

pub record Logs : Type 0 where
  pub read_log : ReadLog
  pub write_log : WriteLog
  pub garbage : ThreadGarbage

unfoldable pub new : Logs
new = record { read_log = ReadLog.new; write_log = WriteLog.new; garbage = Garbage.new }

-- `Drop for PinRw`: what a transaction that did not commit leaves.
unfoldable pub drop_pin_rw : Logs → Logs
drop_pin_rw logs = record {
  read_log = ReadLog.clear logs.read_log;
  write_log = WriteLog.clear logs.write_log;
  garbage = Garbage.abort_speculative_garbage logs.garbage;
}
