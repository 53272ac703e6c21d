-- ===== src/Collector/Window.antt =====
-- personal-trading-phase1/app/rate_gate.py: what the gate has granted over any sequence of requests
-- and cooldowns.
use theta_plus.Base.{
  ℕ, ◌+◌, ◌≤◌, ◌<◌, ◌≡◌, refl, sym, ap, ◌∙◌, Option, none, some, String, List, [], ◌∷◌, ltb, length,
  select, arith, All, Bool-cases, inl, inr,
}
use theta_plus.Collector.RateGate.{
  Key, Account, day_ms, keep_ms, read, is_recent, lowest, pruned, room_wait, wait_of, Reply,
  granted, refused, request, cool, with_grant, without_old,
}

-- A call of a script, at the time that Redis tells it.
pub data Call : Type 0 where
  asks : String → ℕ → ℕ → Call
  cools : ℕ → ℕ → Call

abbrev pub time_of_call : Call → ℕ
time_of_call (asks family family_spacing now) = now
time_of_call (cools seconds now) = now

abbrev grown : Reply → ℕ → List ℕ → List ℕ
grown (granted _ _) now grants = now ∷ grants
grown (refused _) now grants = grants

module _ (guard spacing : ℕ) where
  -- The account and the times of all grants, newest first, after a call.
  unfoldable pub serve : Call → Account × List ℕ → Account × List ℕ
  serve (asks family family_spacing now) (a, grants) =
      let (reply, b) = request guard spacing family family_spacing now a in
      (b, grown reply now grants)
  serve (cools seconds now) (a, grants) = (cool seconds now a, grants)

  unfoldable pub serve_all : List Call → Account × List ℕ → Account × List ℕ
  serve_all [] s = s
  serve_all (c ∷ calls) s = serve_all calls (serve c s)

-- The clock of Redis does not run backwards.
abbrev pub InOrder : ℕ → List Call → Type 0
InOrder clock [] = Unit
InOrder clock (c ∷ calls) = (clock ≤ time_of_call c) × InOrder (time_of_call c) calls

abbrev pub untouched : Account
untouched = record { day = []; day_expires = 0; last = none; cooldown = none; families = [] }

-- Each grant comes at least `spacing` after the one before it.
abbrev pub IsSpaced : ℕ → List ℕ → Type 0
IsSpaced spacing [] = Unit
IsSpaced spacing (g ∷ []) = Unit
IsSpaced spacing (g ∷ h ∷ grants) = (h + spacing ≤ g) × IsSpaced spacing (h ∷ grants)

-- At each grant, no more than `guard` grants fall within the 24 hours that end with it.
abbrev pub IsGuarded : ℕ → List ℕ → Type 0
IsGuarded guard [] = Unit
IsGuarded guard (g ∷ grants) =
    (length (select (is_recent g) (g ∷ grants)) ≤ guard) × IsGuarded guard grants

-- The account knows the last grant until `keep_ms` after it.
abbrev Knows : ℕ → Option Key → List ℕ → Type 0
Knows clock last [] = Unit
Knows clock last (g ∷ grants) =
    (last ≡ some (record { value = g; expires = g + keep_ms })) × (g ≤ clock)

select-recent :
    (now later : ℕ) (xs : List ℕ)
    → now ≤ later
    → select (is_recent later) (select (is_recent now) xs) ≡ select (is_recent later) xs
select-recent now later [] le = refl
select-recent now later (x ∷ xs) le = ground (arith, select-recent now later xs le)

none_recent :
    (now : ℕ) (xs : List ℕ) → All (λ x. x + day_ms ≤ now) xs → select (is_recent now) xs ≡ []
none_recent now [] h = refl
none_recent now (x ∷ xs) h = ground (arith, none_recent now xs h.1)

All-le : (c d : ℕ) (xs : List ℕ) → c ≤ d → All (λ x. x ≤ c) xs → All (λ x. x ≤ d) xs
All-le c d [] h a = tt
All-le c d (x ∷ xs) h a = (omega arith, All-le c d xs h a.1)

All-day :
    (c now : ℕ) (xs : List ℕ)
    → c + day_ms ≤ now
    → All (λ x. x ≤ c) xs
    → All (λ x. x + day_ms ≤ now) xs
All-day c now [] h a = tt
All-day c now (x ∷ xs) h a = (omega arith, All-day c now xs h a.1)

-- From the clock on, the sorted set holds the recent grants.
abbrev Holds : ℕ → Account → List ℕ → Type 0
Holds clock a grants = (now : ℕ) → clock ≤ now → pruned now a ≡ select (is_recent now) grants

pub record IsTrue (guard spacing clock : ℕ) (a : Account) (grants : List ℕ) : Type 0 where
  pub spaced : IsSpaced spacing grants
  pub guarded : IsGuarded guard grants
  pub known : Knows clock a.last grants
  pub past : All (λ g. g ≤ clock) grants
  pub held : Holds clock a grants

without_old-Holds :
    (now : ℕ) (a : Account) (grants : List ℕ)
    → Holds now a grants
    → Holds now (without_old now a) grants
unfolding pruned
without_old-Holds now a grants h later le =
    ground (arith, h later le, select-recent now later a.day le)

with_grant-Holds :
    (family : String) (now : ℕ) (a : Account) (grants : List ℕ)
    → All (λ g. g ≤ now) grants
    → Holds now a grants
    → Holds now (with_grant family now a) (now ∷ grants)
unfolding pruned
with_grant-Holds family now a grants past h later le =
    elim (Bool-cases (ltb later (now + keep_ms))) [
      | inl live ↦
          let old : select (is_recent later) (pruned now a) ≡ select (is_recent later) grants =
            ap (select (is_recent later)) (h now (omega arith))
            ∙ select-recent now later grants le in
          rw (live, old) refl
      | inr gone ↦
          let day_over : now + day_ms ≤ later = ground arith in
          let none_left =
            none_recent later (now ∷ grants) (day_over, All-day now later grants day_over past) in
          rw gone (sym none_left)
    ]

cool-Holds :
    (seconds now clock : ℕ) (a : Account) (grants : List ℕ)
    → Holds clock a grants
    → Holds clock (cool seconds now a) grants
unfolding cool pruned
cool-Holds seconds now clock a grants h later le = ground (arith, h later le)

-- A request that need not wait finds room, and the last grant far enough away.
no_wait :
    (guard spacing : ℕ) (family : String) (family_spacing now : ℕ) (a : Account)
    → wait_of guard spacing family family_spacing now a ≡ 0
    → (read now a.last + spacing ≤ now) × (room_wait guard now (pruned now a) ≡ 0)
unfolding wait_of
no_wait guard spacing family family_spacing now a h = ground arith

lowest-recent :
    (now x : ℕ) (xs : List ℕ) → All (λ y. now < y + day_ms) (x ∷ xs) → now < lowest x xs + day_ms
lowest-recent now x [] h = h.0
lowest-recent now x (y ∷ ys) h = ground (arith, lowest-recent now y ys h.1)

room_wait-room :
    (guard now : ℕ) (xs : List ℕ)
    → 0 < guard
    → All (λ x. now < x + day_ms) xs
    → room_wait guard now xs ≡ 0
    → length xs < guard
room_wait-room guard now [] some_guard recent h = some_guard
room_wait-room guard now (x ∷ xs) some_guard recent h =
    let low = lowest-recent now x xs recent in ground arith

select-All : (now : ℕ) (xs : List ℕ) → All (λ x. now < x + day_ms) (select (is_recent now) xs)
select-All now [] = tt
select-All now (x ∷ xs) = ground (arith, select-All now xs)

IsSpaced-cons :
    (spacing clock now : ℕ) (last : Option Key) (grants : List ℕ)
    → spacing ≤ keep_ms
    → Knows clock last grants
    → read now last + spacing ≤ now
    → IsSpaced spacing grants
    → IsSpaced spacing (now ∷ grants)
IsSpaced-cons spacing clock now last [] short k h s = tt
IsSpaced-cons spacing clock now last (g ∷ grants) short k h s = (ground (arith, k.0), s)

Knows-later :
    (clock now : ℕ) (last : Option Key) (grants : List ℕ)
    → clock ≤ now
    → Knows clock last grants
    → Knows now last grants
Knows-later clock now last [] le k = tt
Knows-later clock now last (g ∷ grants) le k = (k.0, omega arith)

module _ (guard spacing : ℕ) (some_guard : 0 < guard) (short : spacing ≤ keep_ms) where
  granted-IsTrue :
      (family : String) (family_spacing clock now : ℕ) (a : Account) (grants : List ℕ)
      → clock ≤ now
      → IsTrue guard spacing clock a grants
      → wait_of guard spacing family family_spacing now a ≡ 0
      → IsTrue guard spacing now (with_grant family now a) (now ∷ grants)
  granted-IsTrue family family_spacing clock now a grants le t w =
      let (far, room) = no_wait guard spacing family family_spacing now a w in
      let held = t.held now le in
      let past = All-le clock now grants le t.past in
      let few =
        room_wait-room guard now (pruned now a) some_guard (rw held (select-All now grants)) room in
      record {
        spaced = IsSpaced-cons spacing clock now a.last grants short t.known far t.spaced;
        guarded = (let size = ap length held in ground arith, t.guarded);
        known = (refl, omega arith);
        past = (omega arith, past);
        held = with_grant-Holds family now a grants past (λ later l. t.held later (omega arith));
      }

  refused-IsTrue :
      (clock now : ℕ) (a : Account) (grants : List ℕ)
      → clock ≤ now
      → IsTrue guard spacing clock a grants
      → IsTrue guard spacing now (without_old now a) grants
  refused-IsTrue clock now a grants le t = record {
    spaced = t.spaced;
    guarded = t.guarded;
    known = Knows-later clock now a.last grants le t.known;
    past = All-le clock now grants le t.past;
    held = without_old-Holds now a grants (λ later l. t.held later (omega arith));
  }

  cool-last : (seconds now : ℕ) (a : Account) → (cool seconds now a).last ≡ a.last
  unfolding cool
  cool-last seconds now a = ground arith

  cool-IsTrue :
      (seconds clock now : ℕ) (a : Account) (grants : List ℕ)
      → clock ≤ now
      → IsTrue guard spacing clock a grants
      → IsTrue guard spacing now (cool seconds now a) grants
  cool-IsTrue seconds clock now a grants le t = record {
    spaced = t.spaced;
    guarded = t.guarded;
    known = rw (cool-last seconds now a) (Knows-later clock now a.last grants le t.known);
    past = All-le clock now grants le t.past;
    held = cool-Holds seconds now now a grants (λ later l. t.held later (omega arith));
  }

  abbrev Good : ℕ → Account × List ℕ → Type 0
  Good clock s = IsTrue guard spacing clock s.0 s.1

  serve-IsTrue :
      (c : Call) (clock : ℕ) (s : Account × List ℕ)
      → clock ≤ time_of_call c
      → Good clock s
      → Good (time_of_call c) (serve guard spacing c s)
  unfolding serve request
  serve-IsTrue (asks family family_spacing now) clock (a, grants) le t =
      elim (Bool-cases (ltb 0 (wait_of guard spacing family family_spacing now a))) [
        | inl waits ↦ rw waits (refused-IsTrue clock now a grants le t)
        | inr free ↦
            rw free (granted-IsTrue family family_spacing clock now a grants le t (ground arith))
      ]
  serve-IsTrue (cools seconds now) clock (a, grants) le t =
      cool-IsTrue seconds clock now a grants le t

  serve_all-IsTrue :
      (calls : List Call) (clock : ℕ) (s : Account × List ℕ)
      → InOrder clock calls
      → Good clock s
      → IsSpaced spacing (serve_all guard spacing calls s).1
        × IsGuarded guard (serve_all guard spacing calls s).1
  unfolding serve_all
  serve_all-IsTrue [] clock s o t = (t.spaced, t.guarded)
  serve_all-IsTrue (c ∷ calls) clock s o t =
      serve_all-IsTrue calls (time_of_call c) (serve guard spacing c s) o.1
        (serve-IsTrue c clock s o.0 t)

-- Over any sequence of requests, of any families, and cooldowns on an account, with a guard of at
-- least 1, a spacing within the keys' expiry and a clock that does not run backwards, each grant
-- comes at least the spacing after the one before it, and no more than the guard are granted within
-- the 24 hours up to any grant.
pub serve_all-IsGuarded :
    (guard spacing : ℕ) (calls : List Call)
    → 0 < guard
    → spacing ≤ keep_ms
    → InOrder 0 calls
    → IsSpaced spacing (serve_all guard spacing calls (untouched, [])).1
      × IsGuarded guard (serve_all guard spacing calls (untouched, [])).1
unfolding pruned
serve_all-IsGuarded guard spacing calls some_guard short o =
    serve_all-IsTrue guard spacing some_guard short calls 0 (untouched, []) o
      (record { spaced = tt; guarded = tt; known = tt; past = tt; held = λ now le. ground arith })
