-- ===== src/Outbox/Settings.antt =====
-- `OutboxPublisherSettings` of services/worker/netops_worker/outbox_publisher.py.
use netops_copilot.Prelude.{ltb, not, ◌||◌}
use netops_copilot.Prelude.Lists.{length}
use netops_copilot.Prelude.Text.{Text, is_blank}
use netops_copilot.Prelude.Int.{ℤ, is_positive, natural}
use netops_copilot.Errors.{value_error, Result, raise_if, ◌>>◌}

pub record OutboxPublisherSettings : Type 0 where
  pub worker_id : Text
  pub batch_size : ℤ
  pub lease_for : ℤ
  pub retry_after : ℤ
  pub poll_interval : ℤ

-- `OutboxPublisherSettings.__post_init__`
unfoldable pub check_settings : OutboxPublisherSettings → Result (Unit {0})
check_settings s = do
  raise_if (is_blank s.worker_id || ltb 200 (length s.worker_id))
      (value_error "worker_id must contain 1 to 200 non-blank characters.")
  raise_if (not (is_positive s.batch_size) || ltb 100 (natural s.batch_size))
      (value_error "batch_size must be between 1 and 100.")
  raise_if (not (is_positive s.lease_for)) (value_error "lease_for must be positive.")
  raise_if (not (is_positive s.retry_after)) (value_error "retry_after must be positive.")
  raise_if (not (is_positive s.poll_interval)) (value_error "poll_interval must be positive.")
