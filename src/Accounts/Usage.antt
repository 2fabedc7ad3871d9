-- ===== src/Accounts/Usage.antt =====
-- profiles.go: percentages and the words for the time until a quota starts again, and the engine of a new worker.
use ccc_fork.Base.{
  ℕ, ◌+◌, ◌-◌, ◌*◌, ◌/◌, ◌%◌, ◌==◌, ◌||◌, Bool, false, Option, none, some, List, [], ◌∷◌, ◌++◌, ltb,
  if◌then◌else◌, ℤ, pos, negsuc, Text, codes,
}
use ccc_fork.Upload.{decimal}
use ccc_fork.Accounts.{Engine, Profile, ProfileStat, choose_profile, profile_by_key, profile_engine}

unfoldable pub clamp_percent : ℤ → ℕ
clamp_percent (negsuc n) = 0
clamp_percent (pos n) = if ltb 100 n then 100 else n

abbrev pub second : ℕ
second = 1000000000

-- A number and its unit; twenty digits hold every number of 64 bits.
abbrev with_unit : ℕ → Text → Text
with_unit n unit = decimal 20 n ++ unit

-- compactResetDuration of a duration in nanoseconds, zero for one that is not positive
unfoldable pub compact_reset_duration : ℕ → Text
unfolding decimal
compact_reset_duration d =
    let days = d / (24 * 3600 * second) in
    let hours = d % (24 * 3600 * second) / (3600 * second) in
    let minutes = d % (3600 * second) / (60 * second) in
    if d == 0
    then codes "now"
    else if ltb 0 days
    then (if ltb 0 hours
        then with_unit days (codes "d") ++ with_unit hours (codes "h")
        else with_unit days (codes "d"))
    else if ltb 0 hours
    then (if ltb 0 minutes
        then with_unit hours (codes "h") ++ with_unit minutes (codes "m")
        else with_unit hours (codes "h"))
    else if ltb 0 minutes
    then with_unit minutes (codes "m")
    else with_unit (d / second) (codes "s")

-- resetCountdown; a time of zero is not known
unfoldable pub reset_countdown : ℕ → ℕ → Text
unfolding compact_reset_duration
reset_countdown reset_at now = if reset_at == 0 then [] else compact_reset_duration (reset_at - now)

-- spawnUsageKnown, on whether each account's usage is known
unfoldable pub spawn_usage_known : List Bool → Bool
spawn_usage_known [] = false
spawn_usage_known (known ∷ rest) = known || spawn_usage_known rest

abbrev engine_or : Engine → Option Profile → Engine
engine_or otherwise none = otherwise
engine_or otherwise (some p) = profile_engine p

-- pickSpawnEngine, on the statistics that it has collected
unfoldable pub pick_spawn_engine :
    Engine → List Profile → Profile → List ProfileStat → List Bool → ℕ → Engine
unfolding spawn_usage_known choose_profile profile_by_key profile_engine
pick_spawn_engine default_engine profiles default stats known now =
    if spawn_usage_known known
    then engine_or default_engine (profile_by_key profiles default (choose_profile stats now))
    else default_engine

abbrev at_least_one : ℕ → ℕ
at_least_one n = if ltb n 1 then 1 else n

-- `math.Round` of a quotient that is not negative.
abbrev round_div : ℕ → ℕ → ℕ
round_div n d = (n + d / 2) / d

-- usageWindowName; a length that is not positive is zero here
unfoldable pub usage_window_name : ℕ → Text
unfolding decimal
usage_window_name seconds =
    if seconds == 0
    then codes "win"
    else if ltb seconds (90 * 60)
    then with_unit (at_least_one (round_div seconds 60)) (codes "m")
    else if ltb seconds (36 * 3600)
    then with_unit (at_least_one (round_div seconds 3600)) (codes "h")
    else with_unit (at_least_one (round_div seconds 86400)) (codes "d")
