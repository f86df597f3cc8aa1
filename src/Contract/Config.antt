-- ===== src/Contract/Config.antt =====
-- `MessagingSection` of shared/config.py. pydantic rejects a file in which a `PositiveInt` is 0.
use rule2llm_orch_lab.Prelude.{ℕ, ◌<◌}

pub record MessagingConfig : Type 0 where
  pub inventory_timeout_ms : ℕ
  pub max_attempts : ℕ
  pub retry_delay_ms : ℕ
  pub wait_delay_ms : ℕ
  pub max_waits : ℕ
  pub fallback_max_attempts : ℕ
  pub queue_high_watermark : ℕ
  pub task_deadline_ms : ℕ

-- What `PositiveInt` guarantees of a loaded section.
pub record IsLoaded (c : MessagingConfig) : Type 0 where
  pub timeout_positive : 0 < c.inventory_timeout_ms
  pub attempts_positive : 0 < c.max_attempts
  pub watermark_positive : 0 < c.queue_high_watermark
  pub deadline_positive : 0 < c.task_deadline_ms
