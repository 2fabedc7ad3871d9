-- ===== src/Accounts/Cooling.antt =====
-- profiles.go: the map of accounts that are cooling down after a limit.
use ccc_fork.Base.{
  ◌+◌, ◌*◌, ◌^◌, not, ◌&&◌, ℕ, ◌≡◌, refl, sym, ap, arith, Bool, false, ◌||◌, ◌∙◌, inl, inr, Option,
  none, some, ltb, if◌then◌else◌, Text, text_eq_refl, Bool-cases,
}
use ccc_fork.Accounts.{
  Cooldowns, limit_until, is_later, note_profile_limit, cooled_entry, profile_cooled_until,
}

abbrev before : ℕ → Option ℕ → Bool
before t none = false
before t (some c) = ltb t c

cooled_entry-before :
    (m : Cooldowns) (name : Text) (t : ℕ) (o : Option ℕ)
    → ltb t (cooled_entry m name t o).0 ≡ before t o
unfolding cooled_entry
cooled_entry-before m name t none = ground arith
cooled_entry-before m name t (some c) = ground arith

-- An account is unavailable at the times before its entry.
profile_cooled_until-before :
    (m : Cooldowns) (name : Text) (t : ℕ)
    → ltb t (profile_cooled_until m name t).0 ≡ before t (m name)
unfolding profile_cooled_until
profile_cooled_until-before m name t = cooled_entry-before m name t (m name)

later_of : ℕ → Option ℕ → Option ℕ
later_of until o = if is_later until o then some until else o

before-later_of :
    (t until : ℕ) (o : Option ℕ) → before t (later_of until o) ≡ (ltb t until || before t o)
unfolding later_of
before-later_of t until none = ground arith
before-later_of t until (some c) = ground arith

note_profile_limit-at :
    (m : Cooldowns) (name : Text) (reset now : ℕ)
    → note_profile_limit m name reset now name ≡ later_of (limit_until reset now) (m name)
unfolding note_profile_limit later_of
note_profile_limit-at m name reset now =
    elim (Bool-cases (is_later (limit_until reset now) (m name))) [
      | inl e ↦ rw (e, text_eq_refl name) refl
      | inr e ↦ rw e refl
    ]

cooled_by_limit :
    (m : Cooldowns) (name : Text) (reset now t : ℕ)
    → ltb t (profile_cooled_until (note_profile_limit m name reset now) name t).0
      ≡ (ltb t (limit_until reset now) || ltb t (profile_cooled_until m name t).0)
cooled_by_limit m name reset now t =
    profile_cooled_until-before (note_profile_limit m name reset now) name t
    ∙ (ap (before t) (note_profile_limit-at m name reset now)
        ∙ (before-later_of t (limit_until reset now) (m name)
            ∙ ap (λ (b : Bool). ltb t (limit_until reset now) || b)
                (sym (profile_cooled_until-before m name t))))

before-limit_until :
    (reset now t : ℕ)
    → ltb t (limit_until reset now)
      ≡ (ltb now reset && ltb t reset || not (ltb now reset) && ltb t (now + 30 * 60 * 10 ^ 9))
before-limit_until reset now t = elim (Bool-cases (ltb now reset)) [
  | inl e ↦ rw e (ground arith)
  | inr e ↦ rw e (ground arith)
]

-- After an account hit a limit, it is unavailable at a time exactly if it was unavailable then anyway, or the reset of its
-- five-hour window is after the limit and the time before that reset, or the reset is not after the limit and the time is within half an
-- hour (in nanoseconds) of the limit. So a limit never shortens a cooldown.
pub note_profile_limit-cooled :
    (m : Cooldowns) (name : Text) (reset now t : ℕ)
    → ltb t (profile_cooled_until (note_profile_limit m name reset now) name t).0 ≡ (
        ltb now reset && ltb t reset
        || not (ltb now reset) && ltb t (now + 30 * 60 * 10 ^ 9)
        || ltb t (profile_cooled_until m name t).0)
note_profile_limit-cooled m name reset now t =
    cooled_by_limit m name reset now t
    ∙ ap (λ (b : Bool). b || ltb t (profile_cooled_until m name t).0)
        (before-limit_until reset now t)
