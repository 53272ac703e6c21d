-- ===== src/Alerts/Models.antt =====
-- backend/models/alert_models.py: the kinds of alerts and the rows of the alert log.
use theta_plus.Base.{String}
use theta_plus.Clock.{Timestamp}

-- The ALERT_* constants.
pub data AlertType : Type 0 where
  ce_setup pe_setup invalidated : AlertType

-- The STATUS_* constants.
pub data AlertStatus : Type 0 where
  sent failed duplicate not_configured disabled : AlertStatus

pub record AlertRecord : Type 0 where
  pub alert_id : String
  pub signal_id : String
  pub timestamp : Timestamp
  pub provider : String
  pub alert_type : AlertType
  pub status : AlertStatus
  pub error : String
  pub message_preview : String
