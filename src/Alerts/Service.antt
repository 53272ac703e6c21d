-- ===== src/Alerts/Service.antt =====
-- backend/alerts/service.py: `AlertService.dispatch`. The provider acts on a world that the service
-- does not see; `confirmed` is no field of the program, it records the alerts whose `send`
-- returned: one that was delivered before `send` raised is not among them.
-- The uuid and the time of a record are arguments; the log sink is left out.
use theta_plus.Base.{
  ℕ, ◌-◌, Bool, true, false, not, ◌&&◌, Option, none, some, String, List, [], ◌∷◌, ◌++◌,
  if◌then◌else◌, str_eq, length, drop,
}
use theta_plus.Base.Float.{Format}
use theta_plus.Clock.{Timestamp}
use theta_plus.Chart.Markers.{ChartSignalMarker}
use theta_plus.Alerts.Models.{
  AlertType, ce_setup, pe_setup, invalidated, AlertStatus, sent, failed, duplicate, not_configured,
  disabled, AlertRecord,
}
use theta_plus.Alerts.Formatter.{alert_type_for, format_alert}

abbrev pub AlertKey : Type 0
AlertKey = String × AlertType

-- `send` gives the redacted text of the exception that it raises.
pub record Provider (W : Type 0) : Type 0 where
  pub name : String
  pub configured : W → Bool
  pub send : String → W → Option String × W

pub record AlertService (W : Type 0) : Type 0 where
  pub records : List AlertRecord
  pub sent_keys : List AlertKey
  pub last_error : String
  pub world : W
  pub confirmed : List AlertKey

abbrev pub same_type : AlertType → AlertType → Bool
same_type ce_setup ce_setup = true
same_type pe_setup pe_setup = true
same_type invalidated invalidated = true
same_type _ _ = false

abbrev pub same_key : AlertKey → AlertKey → Bool
same_key (s, x) (t, y) = str_eq s t && same_type x y

-- `key in keys`
abbrev pub has_key : AlertKey → List AlertKey → Bool
has_key k [] = false
has_key k (j ∷ keys) = if same_key k j then true else has_key k keys

abbrev pub marked : {W : Type 0} → AlertKey → AlertService W → AlertService W
marked key s = record s { sent_keys = key ∷ s.sent_keys }

-- `deque(maxlen=...)`: the newest records.
abbrev kept : ℕ → List AlertRecord → List AlertRecord
kept maxlen records = drop (length records - maxlen) records

abbrev pub key_of : {F : Type 0} → ChartSignalMarker F → AlertType → AlertKey
key_of m alert_type = (m.signal_id, alert_type)

module _ {F W : Type 0} ⦃fm : Format F⦄ (hh_mm : Timestamp → String) (mode : String)
    (first_line : String → String) (provider : Provider W) (enabled : Bool) (maxlen : ℕ) where
  abbrev pub recorded :
      ChartSignalMarker F
      → AlertType
      → AlertStatus
      → String
      → String
      → String
      → Timestamp
      → AlertService W
      → Option AlertRecord × AlertService W
  recorded m alert_type status error preview uuid now s =
      let r : AlertRecord = record {
        alert_id = uuid;
        signal_id = m.signal_id;
        timestamp = now;
        provider = provider.name;
        alert_type = alert_type;
        status = status;
        error = error;
        message_preview = preview;
      } in
      (some r, record s { records = kept maxlen (s.records ++ r ∷ []) })

  -- What `send` has done, and the record of it.
  unfoldable pub after_send :
      ChartSignalMarker F
      → AlertType
      → String
      → String
      → Timestamp
      → AlertService W
      → Option String × W
      → Option AlertRecord × AlertService W
  after_send m alert_type preview uuid now s (some error, w) =
      recorded m alert_type failed error preview uuid now
        (record s { last_error = error; world = w })
  after_send m alert_type preview uuid now s (none, w) =
      let key = key_of m alert_type in
      recorded m alert_type sent "" preview uuid now
        (record (marked key s) { world = w; confirmed = key ∷ s.confirmed })

  unfoldable pub dispatch_as :
      ChartSignalMarker F
      → AlertType
      → String
      → Timestamp
      → AlertService W
      → Option AlertRecord × AlertService W
  dispatch_as m alert_type uuid now s =
      let key = key_of m alert_type in
      let message = format_alert hh_mm mode m in
      if not enabled
      then recorded m alert_type disabled "" "" uuid now s
      else if has_key key s.sent_keys
      then recorded m alert_type duplicate "" "" uuid now s
      else if not (provider.configured s.world)
      then recorded m alert_type not_configured "" "" uuid now (marked key s)
      else after_send m alert_type (first_line message) uuid now s (provider.send message s.world)

  abbrev pub dispatch_if :
      ChartSignalMarker F
      → Option AlertType
      → String
      → Timestamp
      → AlertService W
      → Option AlertRecord × AlertService W
  dispatch_if m none uuid now s = (none, s)
  dispatch_if m (some alert_type) uuid now s = dispatch_as m alert_type uuid now s

  unfoldable pub dispatch :
      ChartSignalMarker F
      → String
      → Timestamp
      → AlertService W
      → Option AlertRecord × AlertService W
  dispatch m uuid now s = dispatch_if m (alert_type_for m.decision) uuid now s
