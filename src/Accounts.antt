-- ===== src/Accounts.antt =====
-- profiles.go and runner.go: which account a turn runs under, the cooling down of accounts that hit a limit, and the
-- failover from account to account. An account's key is its name; its usage, which files and the network tell, is an
-- argument, and so are what a child process ends with and the profile that configuration makes the default.
-- Times are nanoseconds since Go's zero time, so zero is `time.Time{}`.
pub mod Choice
pub mod Cooling
pub mod Attempts
pub mod Failover
pub mod Usage
pub mod Notices
mod Tests
use ccc_fork.Base.{
  ℕ, zero, suc, ◌+◌, ◌*◌, ◌==◌, Bool, true, false, not, ◌&&◌, ◌||◌, Option, none, some, List, [],
  ◌∷◌, ◌++◌, filter, head?, ltb, if◌then◌else◌, Text, codes, text_eq, text_ltb, is_empty,
  trim_space, to_lower, contains,
}

pub data Engine : Type 0 where
  claude grok antigravity codex : Engine

unfoldable pub engine_eq : Engine → Engine → Bool
engine_eq claude claude = true
engine_eq grok grok = true
engine_eq antigravity antigravity = true
engine_eq codex codex = true
engine_eq _ _ = false

abbrev pub engine_name : Engine → Text
engine_name claude = codes "claude"
engine_name grok = codes "grok"
engine_name antigravity = codes "antigravity"
engine_name codex = codes "codex"

-- parseEngine, `none` for an unknown engine
unfoldable pub parse_engine : Text → Option Engine
parse_engine s =
    let name = to_lower (trim_space s) in
    if is_empty name || text_eq name (codes "claude")
    then some claude
    else if text_eq name (codes "grok") || text_eq name (codes "grok-build")
    then some grok
    else if text_eq name (codes "antigravity") || text_eq name (codes "agy")
    then some antigravity
    else if text_eq name (codes "codex")
    then some codex
    else none

abbrev or_claude : Option Engine → Engine
or_claude none = claude
or_claude (some e) = e

pub record Profile : Type 0 where
  pub name : Text
  pub engine : Text

unfoldable pub profile_engine : Profile → Engine
unfolding parse_engine
profile_engine p = or_claude (parse_engine p.engine)

pub record ProfileStat : Type 0 where
  pub name : Text
  pub engine : Engine
  pub five_hour : ℕ
  pub seven_day : ℕ
  pub working_agents : ℕ
  -- zero = available
  pub cooled_until : ℕ

unfoldable pub better_profile : ProfileStat → ProfileStat → Bool
better_profile a b =
    if not (a.five_hour == b.five_hour)
    then ltb a.five_hour b.five_hour
    else if not (a.seven_day == b.seven_day)
    then ltb a.seven_day b.seven_day
    else if not (a.working_agents == b.working_agents)
    then ltb a.working_agents b.working_agents
    else text_ltb a.name b.name

-- Of two accounts that are cooling down, the one that is ready sooner.
unfoldable pub ready_sooner : ProfileStat → ProfileStat → Bool
ready_sooner a b =
    ltb a.cooled_until b.cooled_until
    || (a.cooled_until == b.cooled_until && text_ltb a.name b.name)

-- The loop `for _, s := range rest { if better(s, best) { best = s } }`.
unfoldable pub best_of :
    (ProfileStat → ProfileStat → Bool) → ProfileStat → List ProfileStat → ProfileStat
best_of better best [] = best
best_of better best (s ∷ rest) = best_of better (if better s best then s else best) rest

-- `s.CooledUntil.IsZero() || !s.CooledUntil.After(now)`
abbrev pub is_open : ℕ → ProfileStat → Bool
is_open now s = s.cooled_until == 0 || not (ltb now s.cooled_until)

unfoldable pub choose_among : List ProfileStat → ProfileStat → List ProfileStat → ProfileStat
unfolding best_of
choose_among [] first rest = best_of ready_sooner first rest
choose_among (s ∷ ready) first rest = best_of better_profile s ready

unfoldable pub choose_profile : List ProfileStat → ℕ → Text
unfolding choose_among
choose_profile [] now = []
choose_profile (s ∷ rest) now = (choose_among (filter (is_open now) (s ∷ rest)) s rest).name

abbrev pub default_limit_cooldown : ℕ
default_limit_cooldown = 30 * 60 * 1000000000

-- The map `cooldowns`.
abbrev pub Cooldowns : Type 0
Cooldowns = Text → Option ℕ

abbrev set_key {ℓ} : {V : Type ℓ} → Text → V → (Text → V) → Text → V
set_key k v m j = if text_eq k j then v else m j

-- Until when an account is skipped after a limit, given its cached five-hour reset time.
abbrev pub limit_until : ℕ → ℕ → ℕ
limit_until reset now = if ltb now reset then reset else now + default_limit_cooldown

abbrev pub is_later : ℕ → Option ℕ → Bool
is_later t none = true
is_later t (some cur) = ltb cur t

unfoldable pub note_profile_limit : Cooldowns → Text → ℕ → ℕ → Cooldowns
note_profile_limit m name reset now =
    if is_later (limit_until reset now) (m name)
    then set_key name (some (limit_until reset now)) m
    else m

unfoldable pub cooled_entry : Cooldowns → Text → ℕ → Option ℕ → ℕ × Cooldowns
cooled_entry m name now none = (0, m)
cooled_entry m name now (some t) = if not (ltb now t) then (0, set_key name none m) else (t, m)

-- When the account is available again, and the map without an entry that is over.
unfoldable pub profile_cooled_until : Cooldowns → Text → ℕ → ℕ × Cooldowns
unfolding cooled_entry
profile_cooled_until m name now = cooled_entry m name now (m name)

-- What is known of an account's use: the five-hour and seven-day percentages.
unfoldable pub collect_profile_stats :
    List Profile → (Text → ℕ × ℕ) → (Text → ℕ) → Cooldowns → ℕ → List ProfileStat × Cooldowns
unfolding profile_engine profile_cooled_until
collect_profile_stats [] usage working m now = ([], m)
collect_profile_stats (p ∷ ps) usage working m now =
    let (until, m') = profile_cooled_until m p.name now in
    let (stats, m'') = collect_profile_stats ps usage working m' now in
    (
      record {
        name = p.name;
        engine = profile_engine p;
        five_hour = (usage p.name).0;
        seven_day = (usage p.name).1;
        working_agents = working p.name;
        cooled_until = until;
      }
          ∷ stats,
      m'',
    )

unfoldable pub profile_by_key : List Profile → Profile → Text → Option Profile
profile_by_key profiles default name =
    if is_empty name then some default else head? (filter (λ p. text_eq p.name name) profiles)

-- Accounts of the engine that were not tried, without those that need a login.
abbrev pub is_healthy : Engine → (Text → Bool) → (Text → Bool) → ProfileStat → Bool
is_healthy engine exclude needs s =
    engine_eq s.engine engine && not (exclude s.name || needs s.name)

abbrev pub is_untried : Engine → (Text → Bool) → ProfileStat → Bool
is_untried engine exclude s = engine_eq s.engine engine && not (exclude s.name)

unfoldable pub implicit_account : Profile → Engine → Profile
implicit_account implicit claude = implicit
implicit_account implicit engine = record { name = engine_name engine; engine = engine_name engine }

abbrev pub has_none : List Profile → Bool
has_none [] = true
has_none (p ∷ ps) = false

abbrev pub wants_implicit : List Profile → Engine → (Text → Bool) → Bool
wants_implicit profiles engine exclude =
    has_none (filter (λ p. engine_eq (profile_engine p) engine) profiles)
    && not (exclude (engine_name engine))

unfoldable pub pick_implicit : List Profile → Profile → Engine → (Text → Bool) → Option Profile
unfolding implicit_account
pick_implicit profiles implicit engine exclude =
    if wants_implicit profiles engine exclude then some (implicit_account implicit engine) else none

unfoldable pub pick_open :
    List Profile → Profile → List ProfileStat → ℕ → Option Profile → Option Profile
unfolding profile_by_key choose_profile
pick_open profiles default [] now otherwise = otherwise
pick_open profiles default (s ∷ ready) now otherwise =
    profile_by_key profiles default (choose_profile (s ∷ ready) now)

-- pickAccount, on the statistics that it has collected
unfoldable pub pick_account :
    List Profile
    → Profile
    → Profile
    → List ProfileStat
    → Engine
    → (Text → Bool)
    → (Text → Bool)
    → ℕ
    → Option Profile
unfolding pick_open pick_implicit engine_eq
pick_account profiles default implicit stats engine exclude needs now =
    pick_open profiles default (filter (is_healthy engine exclude needs) stats) now (
      pick_open profiles default (filter (is_untried engine exclude) stats) now
        (pick_implicit profiles implicit engine exclude))

pub data ErrorClass : Type 0 where
  auth_stale rate_limited transient session_lost fatal : ErrorClass

abbrev contains_one : Text → List Text → Bool
contains_one l [] = false
contains_one l (p ∷ ps) = contains l p || contains_one l ps

unfoldable pub classify_failure : Text → ErrorClass
unfolding contains to_lower
classify_failure text =
    let l = to_lower text in
    if contains text (codes "organization has disabled Claude subscription access")
      || contains_one l (
          codes "not logged in"
          ∷ codes "please run `claude login`"
          ∷ codes "please run `grok login`"
          ∷ codes "please run `codex login`"
          ∷ codes "authentication required"
          ∷ codes "not authenticated"
          ∷ codes "invalid api key"
          ∷ codes "oauth token has expired"
          ∷ codes "authentication_error"
          ∷ [])
    then auth_stale
    else if contains_one l (
        codes "usage limit"
        ∷ codes "rate limit"
        ∷ codes "rate_limit"
        ∷ codes "limit reached"
        ∷ codes "429"
        ∷ [])
    then rate_limited
    else if contains_one l (
          codes "no conversation found"
          ∷ codes "session not found"
          ∷ codes "no such session"
          ∷ codes "could not find session"
          ∷ codes "not found locally"
          ∷ codes "failed to restore session"
          ∷ codes "session get failed"
          ∷ [])
        || (contains l (codes "404 not found") && contains l (codes "session"))
    then session_lost
    else if contains_one l (
        codes "econnreset"
        ∷ codes "etimedout"
        ∷ codes "enotfound"
        ∷ codes "socket hang up"
        ∷ codes "network"
        ∷ codes "fetch failed"
        ∷ codes "internal server error"
        ∷ codes "502"
        ∷ codes "503"
        ∷ codes "overloaded"
        ∷ [])
    then transient
    else fatal
