-- ===== src/Secrets/Tests.antt =====
-- secrets.go: runs of the model.
use ccc_fork.Base.{
  ap, any, not, ℕ, ◌==◌, ◌≡◌, ◌↔◌, inl, inr, refl, Bool, true, none, some, List, [], ◌∷◌, leb, ◌&&◌,
  Has, Text, codes, text_eq, trim_space, has_prefix,
}
use ccc_fork.Base.Bytes.{byte_length}
use ccc_fork.Secrets.{
  Entries, get, error, ok, assignment, env_name, overlay_env, resolve_secret_env,
  validate_secret_name, format_run_result,
}
use ccc_fork.Secrets.Overlay.{overlay_env-assignments}
use ccc_fork.Secrets.Resolving.{overlay_env-isolated, is_reserved}

abbrev unquoted : Text → Text
unquoted t = t

abbrev upper : ℕ → Bool
upper c = leb b'A' c && leb c b'Z'

abbrev ascii_digit : ℕ → Bool
ascii_digit c = leb b'0' c && leb c b'9'

abbrev vault : Entries
vault = (codes "key", codes "s3cret") ∷ []

resolve_runs :
    (resolve_secret_env unquoted upper ascii_digit (ok vault) ((codes "TOKEN", codes "key") ∷ [])
      ≡ ok ((codes "TOKEN", codes "s3cret") ∷ [], codes "s3cret" ∷ []))
    × (resolve_secret_env unquoted upper ascii_digit
          (ok vault)
          ((codes "CLAUDE_X", codes "key") ∷ [])
        ≡ error (codes "env var CLAUDE_X cannot be injected (account isolation)"))
    × (validate_secret_name unquoted (codes "9a")
        ≡ some (codes "secret name 9a is not allowed (letters, then letters/digits/._-)"))
    × (format_run_result (codes "0") (codes "a") ≡ codes "exit 0\na\n")
unfolding resolve_secret_env validate_secret_name format_run_result trim_space text_eq has_prefix
    byte_length
resolve_runs = (refl, refl, refl, refl)

abbrev base : List Text
base = codes "CLAUDE_X=1" ∷ codes "TOKEN=old" ∷ []

abbrev extra : Entries
extra = (codes "TOKEN", codes "new") ∷ []

overlay_env-assignments_example :
    ((v : Text)
      → get (codes "TOKEN") extra ≡ some v
      → Has (assignment (codes "TOKEN", v)) (overlay_env base extra)
        × ((kv : Text)
            → Has kv (overlay_env base extra)
            → env_name kv ≡ codes "TOKEN"
            → kv ≡ assignment (codes "TOKEN", v)))
    × (get (codes "TOKEN") extra ≡ none
        → (kv : Text) → env_name kv ≡ codes "TOKEN"
        → (Has kv base → Has kv (overlay_env base extra))
          × (Has kv (overlay_env base extra) → Has kv base))
overlay_env-assignments_example =
    overlay_env-assignments base extra (λ k v z. absurd z, tt) plain (codes "TOKEN")
  where
    plain : (k v : Text) → Has (k, v) extra → not (any (λ c. c == b'=') k) ≡ true
    plain k v (inl q) = rw (← ap (λ (x : Text × Text). x.0) q) refl
    plain k v (inr z) = absurd z

overlay_env-isolated_example :
    Has (codes "CLAUDE_X=1") (overlay_env base ((codes "TOKEN", codes "s3cret") ∷ []))
    ↔ Has (codes "CLAUDE_X=1") base
overlay_env-isolated_example =
    overlay_env-isolated unquoted upper ascii_digit refl refl (ok vault)
      ((codes "TOKEN", codes "key") ∷ []) base (codes "CLAUDE_X=1") resolve_runs.0 reserved
  where
    reserved : is_reserved (env_name (codes "CLAUDE_X=1")) ≡ true
    reserved = unfold env_name has_prefix in refl
