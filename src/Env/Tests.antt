-- ===== src/Env/Tests.antt =====
-- envfile.go: runs of the model.
use ccc_fork.Base.{
  ◌≡◌, inl, inr, refl, arith, Bool, true, Option, none, some, List, [], ◌∷◌, any, if◌then◌else◌,
  Text, codes, text_eq, trim_space, has_prefix, is_space,
}
use ccc_fork.Env.{Environment, load_env_file, render_env_file, passthrough_names, parse_env_line}
use ccc_fork.Env.RoundTrip.{IsReadable, load-render_env_file, or_else, written}

abbrev names : List Text
names = codes "T" ∷ codes "CLAUDE_X" ∷ []

abbrev shell : Text → Option Text
shell name = if text_eq name (codes "T") then some (codes "a\"b\\c d") else none

abbrev bare : Environment
bare _ = none

abbrev sets_all : Text → Text → Bool
sets_all name value = true

abbrev fits_all : Text → Bool
fits_all line = true

load_env_file_runs :
    ((load_env_file names sets_all fits_all (some (render_env_file names shell).body) bare).0
        (codes "T")
      ≡ some (codes "a\"b\\c d"))
    × (parse_env_line (codes "  X = plain ") ≡ some (codes "X", codes "plain"))
    × (parse_env_line (codes "# X=1") ≡ none)
unfolding load_env_file render_env_file parse_env_line trim_space has_prefix text_eq
load_env_file_runs = (refl, refl, refl)

abbrev one_name : List Text
one_name = codes "T" ∷ []

one_name-IsReadable : IsReadable one_name shell sets_all fits_all
unfolding is_space
one_name-IsReadable = record {
  plain = λ n h c m. elim h [
    | inl q ↦ elim (rw (← q) at m) [
      | inl e ↦ (rw (← e) refl, ground (arith, e), ground (arith, e))
      | inr z ↦ absurd z
    ]
    | inr z ↦ absurd z
  ];
  lines_fit = λ n value h e. refl;
  comments_fit = (refl, refl, refl);
  can_set = λ n value. refl;
}

load-render_env_file_example :
    (load_env_file one_name sets_all fits_all (some (render_env_file one_name shell).body) bare).0
      (codes "T")
    ≡ (if any (λ w. text_eq w (codes "T")) (passthrough_names one_name)
        then or_else (bare (codes "T")) (written (shell (codes "T")))
        else bare (codes "T"))
load-render_env_file_example =
    load-render_env_file one_name shell sets_all fits_all bare one_name-IsReadable (codes "T")
