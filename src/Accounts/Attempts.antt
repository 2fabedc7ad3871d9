-- ===== src/Accounts/Attempts.antt =====
-- runner.go: the loop of `execute` that tries one account after another, at most three times. Each attempt has its own time,
-- and its child process, given the account, ends in one of four ways.
use ccc_fork.Base.{
  ℕ, zero, suc, Bool, true, false, Option, none, some, List, [], ◌∷◌, if◌then◌else◌, Text, text_eq,
}
use ccc_fork.Accounts.{
  Engine, Profile, Cooldowns, ErrorClass, auth_stale, rate_limited, transient, session_lost, fatal,
  classify_failure, collect_profile_stats, pick_account, note_profile_limit,
}

-- What the loop has of the configuration and of the world.
pub record World : Type 0 where
  pub profiles : List Profile
  pub default : Profile
  pub implicit : Profile
  pub engine : Engine
  pub usage : Text → ℕ × ℕ
  pub working : Text → ℕ
  -- FiveHourResetAt of an account
  pub reset_at : Text → ℕ

-- How a child process ended; a failure has the text of `failureText`.
pub data Ended : Type 0 where
  succeeded stopped timed_out : Ended
  failed : Text → Ended

pub record Attempts : Type 0 where
  pub tried : Text → Bool
  pub needs_login : Text → Bool
  pub cooldowns : Cooldowns
  -- whether the bot's conversation was given up
  pub session_dropped : Bool

-- The class that the turn ends with; `no_class` is the empty one.
pub data TurnClass : Type 0 where
  no_class class_stopped class_timeout : TurnClass
  class_error : ErrorClass → TurnClass

pub record Run : Type 0 where
  pub class : TurnClass
  pub after : Attempts
  -- the accounts whose child process was started, and how each ended
  pub spawned : List (Text × Ended)

abbrev pub set_name : Text → Bool → (Text → Bool) → Text → Bool
set_name k v m j = if text_eq k j then v else m j

abbrev pub over : TurnClass → Attempts → Run
over class a = record { class = class; after = a; spawned = [] }

-- The `switch class`: `continue` is the loop from the next attempt on, with the class so far.
unfoldable pub on_failure :
    ErrorClass → World → ℕ → Text → Attempts → (TurnClass → Attempts → Run) → Run
on_failure session_lost w now name a continue =
    continue (class_error session_lost)
      (record a { session_dropped = true; tried = set_name name false a.tried })
on_failure auth_stale w now name a continue =
    continue (class_error auth_stale) (record a { needs_login = set_name name true a.needs_login })
on_failure rate_limited w now name a continue =
    continue (class_error rate_limited)
      (record a { cooldowns = note_profile_limit a.cooldowns name (w.reset_at name) now })
on_failure transient w now name a continue =
    continue (class_error transient) (record a { tried = set_name name false a.tried })
on_failure fatal w now name a continue = over (class_error fatal) a

unfoldable pub on_end : Ended → World → ℕ → Text → Attempts → (TurnClass → Attempts → Run) → Run
unfolding on_failure
on_end succeeded w now name a continue = over no_class a
on_end stopped w now name a continue = over class_stopped a
on_end timed_out w now name a continue = over class_timeout a
on_end (failed text) w now name a continue =
    on_failure (classify_failure text) w now name a continue

abbrev pub noted : Text → Ended → Run → Run
noted name ended r = record r { spawned = (name, ended) ∷ r.spawned }

-- One attempt, once an account is picked or not.
unfoldable pub on_pick :
    Option Profile → World → (Text → Ended) → ℕ → Attempts → (TurnClass → Attempts → Run) → Run
unfolding on_end
on_pick none w spawn now a continue = over (class_error fatal) a
on_pick (some p) w spawn now a continue = noted p.name (spawn p.name) (
    on_end (spawn p.name) w now p.name (record a { tried = set_name p.name true a.tried }) continue)

-- The account that an attempt picks, and the cooldowns that are left.
unfoldable pub pick : World → ℕ → Attempts → Option Profile × Attempts
pick w now a =
    let (stats, cooldowns) = collect_profile_stats w.profiles w.usage w.working a.cooldowns now in
    (
      pick_account w.profiles w.default w.implicit stats w.engine a.tried a.needs_login now,
      record a { cooldowns = cooldowns },
    )

-- The last `n` attempts; `clock` and `spawn` are those of the attempt with so many to follow.
unfoldable pub attempts : World → (ℕ → ℕ) → (ℕ → Text → Ended) → ℕ → TurnClass → Attempts → Run
unfolding on_pick pick
attempts w clock spawn zero class a = over class a
attempts w clock spawn (suc n) class a =
    let (p, a') = pick w (clock n) a in
    on_pick p w (spawn n) (clock n) a' (attempts w clock spawn n)

-- All three, with nothing tried.
abbrev pub run_turn : World → (ℕ → ℕ) → (ℕ → Text → Ended) → (Text → Bool) → Cooldowns → Run
run_turn w clock spawn needs cooldowns = attempts w clock spawn 3 no_class (record {
  tried = λ _. false;
  needs_login = needs;
  cooldowns = cooldowns;
  session_dropped = false;
})
