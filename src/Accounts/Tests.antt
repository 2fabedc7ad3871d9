-- ===== src/Accounts/Tests.antt =====
-- profiles.go and runner.go: runs of the model.
use ccc_fork.Base.{
  ◌+◌, ◌*◌, ◌^◌, not, ◌&&◌, ℕ, ◌≡◌, ◌||◌, inl, inr, refl, ap, arith, false, none, List, [], ◌∷◌,
  map, Has, Text, codes, ltb, text_ltb, text_eq, trim_space, to_lower,
}
use ccc_fork.Accounts.{
  ProfileStat, claude, grok, better_profile, choose_profile, Cooldowns, note_profile_limit,
  profile_cooled_until, is_open, classify_failure, pick_account, collect_profile_stats,
  implicit_account, engine_eq, profile_engine,
}
use ccc_fork.Accounts.Choice.{
  IsFirst, LessUsed, Sooner, Ready, choose_profile-Ready, choose_profile-cooling,
}
use ccc_fork.Accounts.Cooling.{note_profile_limit-cooled}
use ccc_fork.Accounts.Attempts.{World, attempts, Ended, failed, run_turn}
use ccc_fork.Accounts.Failover.{IsNamed, NoRetry, run_turn-NoRetry}

abbrev busy : ProfileStat
busy = record {
  name = codes "a";
  engine = claude;
  five_hour = 80;
  seven_day = 10;
  working_agents = 1;
  cooled_until = 0;
}

abbrev rested : ProfileStat
rested = record busy { name = codes "b"; five_hour = 20 }

abbrev cooling : ProfileStat
cooling = record busy { name = codes "c"; five_hour = 0; cooled_until = 900 }

abbrev stats : List ProfileStat
stats = busy ∷ rested ∷ cooling ∷ []

choose_profile_runs :
    (choose_profile stats 100 ≡ codes "b") × (choose_profile (cooling ∷ []) 100 ≡ codes "c")
unfolding choose_profile better_profile
choose_profile_runs = (refl, refl)

choose_profile-Ready_example : IsFirst LessUsed (Ready 100 stats) (choose_profile stats 100)
choose_profile-Ready_example = choose_profile-Ready 100 stats busy (inl refl, refl)

is_only : (t : ProfileStat) → ¬ Ready 100 (cooling ∷ []) t
is_only t (inl q, o) = ground (arith, ap (λ (s : ProfileStat). is_open 100 s) q, o)
is_only t (inr n, o) = n

choose_profile-cooling_example :
    IsFirst Sooner (λ t. Has t (cooling ∷ [])) (choose_profile (cooling ∷ []) 100)
choose_profile-cooling_example =
    choose_profile-cooling 100 (cooling ∷ []) cooling (inl refl) is_only

abbrev no_cooldowns : Cooldowns
no_cooldowns _ = none

note_profile_limit-cooled_example :
    ltb 60
      (profile_cooled_until (note_profile_limit no_cooldowns (codes "a") 70 50) (codes "a") 60).0
    ≡ (ltb 50 70 && ltb 60 70
        || not (ltb 50 70) && ltb 60 (50 + 30 * 60 * 10 ^ 9)
        || ltb 60 (profile_cooled_until no_cooldowns (codes "a") 60).0)
note_profile_limit-cooled_example = note_profile_limit-cooled no_cooldowns (codes "a") 70 50 60

abbrev two_groks : World
two_groks = record {
  profiles =
      record { name = codes "a"; engine = codes "grok" }
      ∷ record { name = codes "b"; engine = codes "grok" }
      ∷ [];
  default = record { name = codes "a"; engine = codes "grok" };
  implicit = record { name = codes "default"; engine = codes "claude" };
  engine = grok;
  usage = λ _. (0, 0);
  working = λ _. 0;
  reset_at = λ _. 0;
}

two_groks-IsNamed : IsNamed two_groks
unfolding implicit_account
two_groks-IsNamed = record {
  names = λ p m. elim m [
    | inl q ↦ ground (arith, q)
    | inr (inl q) ↦ ground (arith, q)
    | inr (inr n) ↦ absurd n
  ];
  stand_in = inl refl;
}

abbrev always_limited : ℕ → Text → Ended
always_limited n name = failed (codes "HTTP 429")

-- Claude with an account of its own, so that nothing stands in for it.
abbrev two_claudes : World
two_claudes = record two_groks {
  profiles =
      record { name = codes "a"; engine = codes "claude" }
      ∷ record { name = codes "b"; engine = codes "claude" }
      ∷ [];
  default = record { name = codes "a"; engine = codes "claude" };
  engine = claude;
}

two_claudes-IsNamed : IsNamed two_claudes
unfolding trim_space to_lower text_eq engine_eq profile_engine
two_claudes-IsNamed = record {
  names = λ p m. elim m [
    | inl q ↦ ground (arith, q)
    | inr (inl q) ↦ ground (arith, q)
    | inr (inr n) ↦ absurd n
  ];
  stand_in = inr refl;
}

run_turn-NoRetry_example :
    NoRetry (run_turn two_claudes (λ n. 1000) always_limited (λ _. false) no_cooldowns).spawned
run_turn-NoRetry_example =
    run_turn-NoRetry two_claudes two_claudes-IsNamed (λ n. 1000) always_limited (λ _. false)
      no_cooldowns

abbrev started : World → List Text
started w =
    map (λ (l : Text × Ended). l.0)
      (run_turn w (λ n. 1000) always_limited (λ _. false) no_cooldowns).spawned

two_groks_runs : started two_groks ≡ codes "a" ∷ codes "b" ∷ []
unfolding attempts pick_account collect_profile_stats to_lower trim_space text_eq better_profile
    text_ltb classify_failure note_profile_limit
two_groks_runs = refl

-- The account that stands in for Claude is called `default`, and is started again after a rate limit.
claude_runs :
    started (record two_groks { engine = claude })
    ≡ codes "default" ∷ codes "default" ∷ codes "default" ∷ []
unfolding attempts pick_account collect_profile_stats to_lower trim_space text_eq classify_failure
claude_runs = refl
