-- ===== src/Collector/RateGate.antt =====
-- personal-trading-phase1/app/rate_gate.py: the two scripts that Redis runs, and `RateGate`. Times are
-- milliseconds. A script runs as a whole, at the one time that Redis tells it, and Redis forgets a key
-- at its expiry. What the sorted set holds under fresh names is the list of its scores, newest first.
use theta_plus.Base.{
  ℕ, ◌+◌, ◌-◌, ◌*◌, ◌/◌, Bool, not, ◌&&◌, Option, none, some, String, List, [], ◌∷◌, if◌then◌else◌,
  ltb, leb, length, select,
}
use theta_plus.Base.Dict.{Dict, lookup, insert}

-- A text key with its expiry.
pub record Key : Type 0 where
  pub value : ℕ
  pub expires : ℕ

-- The keys of one account.
pub record Account : Type 0 where
  pub day : List ℕ
  pub day_expires : ℕ
  pub last : Option Key
  pub cooldown : Option Key
  pub families : Dict Key

-- The settings that the gate reads. They are validated: the guard is at least 1.
pub record Settings : Type 0 where
  pub dhan_min_spacing_ms : ℕ
  pub dhan_daily_guard : ℕ
  pub parallel_budget_required : Bool

abbrev pub day_ms : ℕ
day_ms = 86400000

abbrev pub keep_ms : ℕ
keep_ms = 86401000

abbrev pub max_of : ℕ → ℕ → ℕ
max_of a b = if ltb a b then b else a

abbrev pub min_of : ℕ → ℕ → ℕ
min_of a b = if ltb b a then b else a

-- `tonumber(redis.call('GET', key) or '0')`
abbrev pub read : ℕ → Option Key → ℕ
read now none = 0
read now (some k) = if ltb now k.expires then k.value else 0

-- Whether a score is above `now - 86400000`.
abbrev pub is_recent : ℕ → ℕ → Bool
is_recent now at = ltb now (at + day_ms)

-- The sorted set, where its expiry is still ahead, after `ZREMRANGEBYSCORE`.
unfoldable pub pruned : ℕ → Account → List ℕ
pruned now a = select (is_recent now) (if ltb now a.day_expires then a.day else [])

abbrev pub lowest : ℕ → List ℕ → ℕ
lowest x [] = x
lowest x (y ∷ ys) = min_of x (lowest y ys)

-- The wait for room in the day: none with no entry, where the guard is not reached.
abbrev pub room_wait : ℕ → ℕ → List ℕ → ℕ
room_wait guard now [] = 0
room_wait guard now (x ∷ xs) =
    if leb guard (length (x ∷ xs)) then (lowest x xs + day_ms + 1) - now else 0

-- `math.max` of the differences and 0: a difference below 0 is 0.
unfoldable pub wait_of : ℕ → ℕ → String → ℕ → ℕ → Account → ℕ
wait_of guard spacing family family_spacing now a =
    max_of
      (max_of ((read now a.last + spacing) - now) (
        max_of ((read now (lookup family a.families) + family_spacing) - now)
          (read now a.cooldown - now)))
      (room_wait guard now (pruned now a))

pub data Reply : Type 0 where
  granted : Option ℕ → ℕ → Reply
  refused : ℕ → Reply

abbrev pub stamp : ℕ → Key
stamp now = record { value = now; expires = now + keep_ms }

-- `last > 0 and now - last or -1`, which the caller reads as None below 0
abbrev since_last : ℕ → ℕ → Option ℕ
since_last now last = if ltb 0 last then some (now - last) else none

abbrev pub without_old : ℕ → Account → Account
without_old now a = record a { day = pruned now a }

abbrev pub with_grant : String → ℕ → Account → Account
with_grant family now a = record {
  day = now ∷ pruned now a;
  day_expires = now + keep_ms;
  last = some (stamp now);
  cooldown = a.cooldown;
  families = insert family (stamp now) a.families;
}

-- LUA
unfoldable pub request : ℕ → ℕ → String → ℕ → ℕ → Account → Reply × Account
request guard spacing family family_spacing now a =
    let wait = wait_of guard spacing family family_spacing now a in
    if ltb 0 wait then (refused wait, without_old now a) else (
      granted (since_last now (read now a.last))
          (length (select (λ at. leb now (at + 1000)) (pruned now a)) + 1),
      with_grant family now a,
    )

-- COOLDOWN, for `cooldown(seconds)`
unfoldable pub cool : ℕ → ℕ → Account → Account
cool seconds now a =
    let ms = max_of 1 seconds * 1000 in
    if ltb (read now a.cooldown) (now + ms)
    then record a { cooldown = some (record { value = now + ms; expires = now + ms }) }
    else a

pub data Acquired : Type 0 where
  slot : ℕ → Option ℕ → ℕ → Acquired
  deferred : ℕ → Acquired
  asleep : ℕ → Acquired

abbrev wait_ms : Reply → ℕ
wait_ms (granted _ _) = 0
wait_ms (refused wait) = wait

-- What a reply means to the caller, whose further attempts end with the last argument.
abbrev answer : ℕ → Reply → Account → Acquired × Account → Acquired × Account
answer waited (granted previous recent) a rest = (slot waited previous recent, a)
answer waited (refused wait) a rest =
    if ltb 5000 wait then (deferred (max_of 1 ((wait + 999) / 1000)), a) else rest

module _ (s : Settings) where
  abbrev pub spacing_ms : ℕ
  spacing_ms =
      if s.parallel_budget_required
      then max_of s.dhan_min_spacing_ms 1100
      else s.dhan_min_spacing_ms

  abbrev pub daily_guard : ℕ
  daily_guard =
      if s.parallel_budget_required then min_of s.dhan_daily_guard 40000 else s.dhan_daily_guard

  -- The loop of `acquire`. Each attempt comes with its time and with what others have done to the
  -- account since the one before; where the attempts end, it sleeps on.
  unfoldable pub acquire_from :
      String → ℕ → ℕ → List (ℕ × (Account → Account)) → Account → Acquired × Account
  acquire_from family family_spacing waited [] a = (asleep waited, a)
  acquire_from family family_spacing waited ((now, others) ∷ attempts) a =
      let (reply, b) = request daily_guard spacing_ms family family_spacing now (others a) in
      answer waited reply b (acquire_from family family_spacing (waited + wait_ms reply) attempts b)

  -- `acquire`, where `is_ready` is what `parallel_budget.ready` answers.
  unfoldable pub acquire :
      String → ℕ → Bool → List (ℕ × (Account → Account)) → Account → Acquired × Account
  acquire family family_spacing is_ready attempts a =
      if s.parallel_budget_required && not is_ready
      then (deferred 60, a)
      else acquire_from family family_spacing 0 attempts a
