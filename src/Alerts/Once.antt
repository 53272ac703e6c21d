-- ===== src/Alerts/Once.antt =====
-- backend/alerts/service.py: an alert is confirmed once.
use mathlib.Core.Path.{subst}
use theta_plus.Base.{
  ℕ, ◌≡◌, refl, sym, ap, ◌∙◌, Bool, true, false, not, Option, none, some, String, List, [], ◌∷◌,
  arith, if_ind, if_cases,
}
use theta_plus.Base.Float.{Format}
use theta_plus.Clock.{Timestamp}
use theta_plus.Chart.Markers.{ChartSignalMarker}
use theta_plus.Alerts.Models.{AlertRecord, AlertType}
use theta_plus.Alerts.Formatter.{alert_type_for, format_alert}
use theta_plus.Alerts.Service.{
  AlertKey, Provider, AlertService, has_key, marked, after_send, dispatch_as, dispatch_if, dispatch,
  key_of,
}

-- No key stands twice.
abbrev pub IsNodup : List AlertKey → Type 0
IsNodup [] = Unit
IsNodup (k ∷ keys) = (has_key k keys ≡ false) × IsNodup keys

-- Every confirmed alert is remembered as sent.
pub record Remembers {W : Type 0} (s : AlertService W) : Type 0 where
  pub nodup : IsNodup s.confirmed
  pub within : (k : AlertKey) → has_key k s.confirmed ≡ true → has_key k s.sent_keys ≡ true

module _ {W : Type 0} where
  marked-Remembers : (key : AlertKey) (s : AlertService W) → Remembers s → Remembers (marked key s)
  marked-Remembers key s r = record {
    nodup = r.nodup;
    within = λ k h. ground (arith, r.within k h);
  }

  confirmed-Remembers :
      (key : AlertKey) (w : W) (s : AlertService W)
      → has_key key s.sent_keys ≡ false
      → Remembers s
      → Remembers
          (record s { sent_keys = key ∷ s.sent_keys; world = w; confirmed = key ∷ s.confirmed })
  confirmed-Remembers key w s fresh r = record {
    nodup = (let known = r.within key in ground arith, r.nodup);
    within = λ k h. let known = r.within k in ground arith;
  }

abbrev pub new_service : {W : Type 0} → W → AlertService W
new_service w = record { records = []; sent_keys = []; last_error = ""; world = w; confirmed = [] }

module _ {F W : Type 0} ⦃fm : Format F⦄ (hh_mm : Timestamp → String) (mode : String)
    (first_line : String → String) (provider : Provider W) (enabled : Bool) (maxlen : ℕ) where
  after_send-Remembers :
      (m : ChartSignalMarker F) (alert_type : AlertType) (preview uuid : String) (now : Timestamp)
      (s : AlertService W) (answer : Option String × W)
      → has_key (key_of m alert_type) s.sent_keys ≡ false
      → Remembers s
      → Remembers
          (after_send hh_mm mode first_line provider enabled maxlen m alert_type preview uuid now s
            answer).1
  unfolding after_send
  after_send-Remembers m alert_type preview uuid now s (some error, w) fresh r = record {
    nodup = r.nodup;
    within = r.within;
  }
  after_send-Remembers m alert_type preview uuid now s (none, w) fresh r =
      let after = confirmed-Remembers (key_of m alert_type) w s fresh r in
      record { nodup = after.nodup; within = after.within }

  dispatch_as-Remembers :
      (m : ChartSignalMarker F) (alert_type : AlertType) (uuid : String) (now : Timestamp)
      (s : AlertService W)
      → Remembers s
      → Remembers
          (dispatch_as hh_mm mode first_line provider enabled maxlen m alert_type uuid now s).1
  unfolding dispatch_as
  dispatch_as-Remembers m alert_type uuid now s r =
      if_ind {A = Option AlertRecord × AlertService W} (λ o. Remembers o.1) (not enabled)
        (record { nodup = r.nodup; within = r.within })
        (if_cases {A = Option AlertRecord × AlertService W} (λ o. Remembers o.1)
          (has_key (key_of m alert_type) s.sent_keys)
          (λ _. record { nodup = r.nodup; within = r.within })
          (λ fresh.
            if_ind {A = Option AlertRecord × AlertService W} (λ o. Remembers o.1)
              (not (provider.configured s.world))
              (let after = marked-Remembers (key_of m alert_type) s r in
                record { nodup = after.nodup; within = after.within })
              (after_send-Remembers m alert_type _ uuid now s _ fresh r)))

  dispatch_if-Remembers :
      (m : ChartSignalMarker F) (kind : Option AlertType) (uuid : String) (now : Timestamp)
      (s : AlertService W)
      → Remembers s
      → Remembers (dispatch_if hh_mm mode first_line provider enabled maxlen m kind uuid now s).1
  dispatch_if-Remembers m none uuid now s r = r
  dispatch_if-Remembers m (some alert_type) uuid now s r =
      dispatch_as-Remembers m alert_type uuid now s r

  -- Markers dispatched one after the other, each with its uuid and its time.
  unfoldable pub dispatch_all :
      List (ChartSignalMarker F × (String × Timestamp)) → AlertService W → AlertService W
  dispatch_all [] s = s
  dispatch_all ((m, (uuid, now)) ∷ calls) s =
      dispatch_all calls (dispatch hh_mm mode first_line provider enabled maxlen m uuid now s).1

  dispatch_all-Remembers :
      (calls : List (ChartSignalMarker F × (String × Timestamp))) (s : AlertService W)
      → Remembers s
      → Remembers (dispatch_all calls s)
  unfolding dispatch_all dispatch
  dispatch_all-Remembers [] s r = r
  dispatch_all-Remembers ((m, (uuid, now)) ∷ calls) s r =
      dispatch_all-Remembers calls _
        (dispatch_if-Remembers m (alert_type_for m.decision) uuid now s r)

  -- Over any sequence of markers, and whatever the provider answers, no alert of a signal is confirmed
  -- twice: once a send of it has returned, no later one does. A provider that delivers an alert and
  -- raises all the same is asked again.
  pub dispatch_all-IsNodup :
      (calls : List (ChartSignalMarker F × (String × Timestamp))) (w : W)
      → IsNodup (dispatch_all calls (new_service w)).confirmed
  dispatch_all-IsNodup calls w =
      (dispatch_all-Remembers calls (new_service w)
        (record { nodup = tt; within = λ k h. h })).nodup

  after_send-world :
      (m : ChartSignalMarker F) (alert_type : AlertType) (preview uuid : String) (now : Timestamp)
      (s : AlertService W) (answer : Option String × W)
      → (after_send hh_mm mode first_line provider enabled maxlen m alert_type preview uuid now s
          answer).1.world
        ≡ answer.1
  unfolding after_send
  after_send-world m alert_type preview uuid now s (some error, w) = refl
  after_send-world m alert_type preview uuid now s (none, w) = refl

  abbrev sent_by :
      ChartSignalMarker F
      → AlertType
      → String
      → Timestamp
      → AlertService W
      → Option String × W
      → Option AlertRecord × AlertService W
  sent_by m alert_type uuid now s =
      after_send hh_mm mode first_line provider enabled maxlen m alert_type
        (first_line (format_alert hh_mm mode m)) uuid now s

  -- A new alert is handed to a provider that is configured.
  dispatch-sent_by :
      (m : ChartSignalMarker F) (alert_type : AlertType) (uuid : String) (now : Timestamp)
      (s : AlertService W)
      → enabled ≡ true
      → alert_type_for m.decision ≡ some alert_type
      → has_key (key_of m alert_type) s.sent_keys ≡ false
      → provider.configured s.world ≡ true
      → dispatch hh_mm mode first_line provider enabled maxlen m uuid now s
        ≡ sent_by m alert_type uuid now s (provider.send (format_alert hh_mm mode m) s.world)
  unfolding dispatch dispatch_as
  dispatch-sent_by m alert_type uuid now s on kind fresh ready =
      rw kind (rw on (rw fresh (rw ready refl)))

  abbrev pub IsAskedAgain :
      ChartSignalMarker F → String → AlertService W → W → AlertService W → AlertService W → Type 0
  IsAskedAgain m error s w t u =
      (t.confirmed ≡ s.confirmed)
      × (t.last_error ≡ error)
      × (u.world ≡ (provider.send (format_alert hh_mm mode m) w).1)

  -- An alert that the provider did not take is not remembered as sent: the next dispatch of the
  -- marker asks the provider again.
  pub dispatch-retry :
      (m : ChartSignalMarker F) (alert_type : AlertType) (uuid uuid' error : String)
      (now now' : Timestamp) (s : AlertService W) (w : W)
      → enabled ≡ true
      → alert_type_for m.decision ≡ some alert_type
      → has_key (key_of m alert_type) s.sent_keys ≡ false
      → provider.configured s.world ≡ true
      → provider.send (format_alert hh_mm mode m) s.world ≡ (some error, w)
      → provider.configured w ≡ true
      → IsAskedAgain m error s w
          (dispatch hh_mm mode first_line provider enabled maxlen m uuid now s).1
          (dispatch hh_mm mode first_line provider enabled maxlen m uuid' now'
            (dispatch hh_mm mode first_line provider enabled maxlen m uuid now s).1).1
  unfolding after_send
  dispatch-retry m alert_type uuid uuid' error now now' s w on kind fresh ready refused again =
      let t = (sent_by m alert_type uuid now s (some error, w)).1 in
      let first =
        dispatch-sent_by m alert_type uuid now s on kind fresh ready
        ∙ ap (sent_by m alert_type uuid now s) refused in
      let second = dispatch-sent_by m alert_type uuid' now' t on kind fresh again in
      subst
        (λ (o : Option AlertRecord × AlertService W).
          IsAskedAgain m error s w o.1
            (dispatch hh_mm mode first_line provider enabled maxlen m uuid' now' o.1).1)
        (sym first)
        (
          refl,
          refl,
          ap (λ (o : Option AlertRecord × AlertService W). o.1.world) second
              ∙ after_send-world m alert_type (first_line (format_alert hh_mm mode m)) uuid' now' t
                  (provider.send (format_alert hh_mm mode m) w),
        )
