-- ===== src/Access/Tests.antt =====
-- access.go: runs of the model, over a table in memory.
use ccc_fork.Base.{
  ◌≡◌, inl, inr, refl, arith, true, none, some, List, [], ◌∷◌, codes, pos, list_table, Table,
  text_eq, length, to_lower, trim_space, first, write,
}
use ccc_fork.Access.{
  Access, Config, approved, pending, role_owner, gate, approve_by_code, set_access_state,
  classify_access, handle_unknown_user, new_pair_code,
}
use ccc_fork.Access.Safety.{IsApproved, gate-role_user, gate-role_owner, gate-IsApproved}
use ccc_fork.Access.Pairing.{Grants, approve_by_code-Grants}
use ccc_fork.Access.Replies.{IsCapped, gate-IsCapped}
use ccc_fork.Access.Codes.{new_pair_code-typed}

abbrev db : Table Access
db = list_table Access

abbrev cfg : Config
cfg = record { bot_token = codes "t"; chat_id = pos 1 }

abbrev friend : Access
friend = record {
  telegram_user_id = pos 7;
  display = codes "Ann";
  state = approved;
  pair_code = [];
  code_expires_at = none;
  replies = 0;
}

abbrev stranger : Access
stranger = record {
  telegram_user_id = pos 8;
  display = codes "Bob";
  state = pending;
  pair_code = codes "0a1b2c";
  code_expires_at = some 5000;
  replies = 1;
}

abbrev rows : List Access
rows = friend ∷ stranger ∷ []

gate-role_user_example : IsApproved (pos 7) rows
unfolding gate classify_access first
gate-role_user_example =
    gate-role_user db rows cfg (pos 7) (codes "Ann") (pos 7) true 100 (codes "ffffff") refl

gate-role_owner_example : (gate db rows cfg (pos 1) [] (pos 1) true 100 []).role ≡ role_owner
gate-role_owner_example =
    (gate-role_owner db rows cfg (pos 1) [] (pos 1) true 100 []).1 refl (λ e. ground (arith, e))

gate-IsApproved_example : IsApproved (pos 7) rows
unfolding gate classify_access handle_unknown_user first write
gate-IsApproved_example =
    gate-IsApproved db rows cfg (pos 8) (codes "Bob") (pos 8) true 100 (codes "ffffff") (pos 7)
      (friend, inl refl, refl, refl)

abbrev let_in_bob : Access
let_in_bob = record stranger {
  state = approved;
  pair_code = [];
  code_expires_at = none;
  replies = 0;
}

approve_by_code-Grants_example : Grants rows (friend ∷ let_in_bob ∷ []) (codes " 0A1B2c ") 4000
unfolding approve_by_code set_access_state first text_eq to_lower trim_space
approve_by_code-Grants_example =
    approve_by_code-Grants db rows (codes " 0A1B2c ") 4000
      {r = record stranger { state = approved }} {rows' = friend ∷ let_in_bob ∷ []} refl

rows-IsCapped : IsCapped rows
rows-IsCapped r (inl e) = ground (arith, e)
rows-IsCapped r (inr (inl e)) = ground (arith, e)
rows-IsCapped r (inr (inr n)) = absurd n

gate-IsCapped_example :
    IsCapped (gate db rows cfg (pos 8) (codes "Bob") (pos 8) true 100 (codes "ffffff")).rows
gate-IsCapped_example =
    gate-IsCapped db rows rows-IsCapped cfg (pos 8) (codes "Bob") (pos 8) true 100 (codes "ffffff")

new_pair_code-typed_example :
    (to_lower (trim_space (new_pair_code (some (10, 27, 44)) 9))
      ≡ new_pair_code (some (10, 27, 44)) 9)
    × (length (new_pair_code (some (10, 27, 44)) 9) ≡ 6)
new_pair_code-typed_example = new_pair_code-typed (some (10, 27, 44)) 9
